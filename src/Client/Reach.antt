-- ===== src/Client/Reach.antt =====
-- Requests for one vertex, from the client through its master to the answer.
use graphlabapi_graphlab.Prelude.{
  ℕ, ◌≡◌, ◌≢◌, refl, sym, subst, ap, ◌∙◌, Bool, true, false, Option, none, some, List, [], ◌∷◌,
  ◌==◌, if◌then◌else◌, arith, Bool-cases, ==_iff, inl, inr, ◌⊎◌,
}
use graphlabapi_graphlab.Prelude.Run.{Run, ok}
use graphlabapi_graphlab.Row.{Row, RowIsValid, empty_row, archived_row_lem}
use graphlabapi_graphlab.Shard
use graphlabapi_graphlab.Shard.Invariant.{with_vertex}
use graphlabapi_graphlab.Server
use graphlabapi_graphlab.Server.{Server, einvid}
use graphlabapi_graphlab.Server.Invariant.{IsValid, with_vertex-IsValid}
use graphlabapi_graphlab.Server.Add.{add_absent}
use graphlabapi_graphlab.Server.Read.{
  answer, get_vertex_lem, find_row-append, find_row_absent, find_row-RowIsValid,
}
use graphlabapi_graphlab.Server.Write.{row_of}
use graphlabapi_graphlab.Message.{Cmd, Obj, Item, QueryMessage, read_row}
use graphlabapi_graphlab.Dispatch.{process}
use graphlabapi_graphlab.Placement.{Manager, vertex_master}
use graphlabapi_graphlab.Client
use graphlabapi_graphlab.Client.Network.{Transport}

-- The code and the row of a read.
abbrev pub fetched : Row → Option Row → ℕ × Row
fetched out none = (einvid, out)
fetched out (some r) = (0, r)

abbrev pub read_result : {W : Type 0} → Row → Option Row → W → Run (ℕ × Row × W)
read_result out o w = ok ((fetched out o).0, (fetched out o).1, w)

row_after_add :
    (s : Server) (vid other : ℕ) (row : Row)
    → IsValid s
    → Shard.has_vertex s.shard vid ≡ false
    → row_of (record s { shard = with_vertex s.shard vid row }) other
      ≡ (if vid == other then some row else row_of s other)
row_after_add s vid other row h absent =
    let fresh : (row_of s other ≡ none) ⊎ (vid ≢ other) = elim (Bool-cases (vid == other)) [
      | inl hit ↦ inl (rw (← (==_iff vid other).0 hit) (find_row_absent s vid h absent))
      | inr miss ↦ inr (ground arith)
    ] in
    find_row-append other vid s.shard.vertex s.shard.vertex_data row h.shard_valid.data_length fresh

abbrev get_message : ℕ → QueryMessage
get_message vid = record { cmd = Cmd.get; obj = Obj.vertex; args = Item.id vid ∷ [] }

abbrev add_message : ℕ → Row → QueryMessage
add_message vid row = record {
  cmd = Cmd.add;
  obj = Obj.vertex;
  args = Item.id vid ∷ Item.row row ∷ [];
}

abbrev get_reply : Option Row → List Item
get_reply none = Item.code einvid ∷ []
get_reply (some r) = Item.code 0 ∷ Item.row r ∷ []

parse_get :
    (o : Option Row) (out : Row)
    → ((r : Row) → o ≡ some r → RowIsValid r)
    → Client.parse_reply_into read_row (some (get_reply o)) out ≡ ok (fetched out o)
unfolding Client.parse_reply_into read_row
parse_get none out h = refl
parse_get (some r) out h = rw (archived_row_lem r (h r refl)) refl

process_get_vertex :
    (padding : ℕ → ℕ) (s : Server) (vid : ℕ)
    → IsValid s
    → (success : Bool) × (process padding s (get_message vid)
        ≡ ok (success, s, get_reply (row_of s vid)))
unfolding process
process_get_vertex padding s vid h = go (row_of s vid) (get_vertex_lem s vid empty_row h tt)
  where
    go :
        (o : Option Row)
        → Server.get_vertex s vid empty_row ≡ answer empty_row o
        → (success : Bool) × (process padding s (get_message vid) ≡ ok (success, s, get_reply o))
    go none e = (false, rw e)
    go (some r) e = (true, rw e)

process_add_vertex :
    (padding : ℕ → ℕ) (s : Server) (vid : ℕ) (row : Row)
    → RowIsValid row
    → Shard.has_vertex s.shard vid ≡ false
    → row.is_vertex ≡ true
    → process padding s (add_message vid row)
      ≡ ok (true, record s { shard = with_vertex s.shard vid row }, Item.code 0 ∷ [])
unfolding process
process_add_vertex padding s vid row k absent kind =
    rw (archived_row_lem row k, add_absent s vid row k absent, kind)

module _ {W : Type 0} (padding : ℕ → ℕ) (net : Transport W padding) where
  abbrev pub SameServers : W → W → Type 0
  SameServers w v = (k : ℕ) → net.server_at v k ≡ net.server_at w k

  pub unchanged :
      (w v : W) (i : ℕ) (s : Server)
      → net.server_at w i ≡ some s
      → ((k : ℕ) → net.server_at v k ≡ (if i == k then some s else net.server_at w k))
      → SameServers w v
  unchanged w v i s up after k = elim (Bool-cases (i == k)) [
    | inl hit ↦
        let same : i ≡ k = (==_iff i k).0 hit in
        after k ∙ rw hit (sym (subst (λ x. net.server_at w x ≡ some s) same up))
    | inr miss ↦ after k ∙ rw miss
  ]

module _ {W : Type 0} (padding : ℕ → ℕ) (net : Transport W padding) (sqrt : ℕ → ℕ) (vidhash : ℕ → ℕ)
    (edge_hash : ℕ × ℕ → ℕ) (m : Manager) where
  -- If the server of a vertex's master is up and valid, the client's `get_vertex` returns what a scan
  -- of its arrays finds, or EINVID with `out` untouched, and changes no server.
  pub get_vertex_answers :
      (w : W) (vid i : ℕ) (s : Server) (out : Row)
      → vertex_master sqrt vidhash edge_hash m vid ≡ ok i
      → net.server_at w i ≡ some s
      → IsValid s
      → (v : W) × (Client.get_vertex padding net sqrt vidhash edge_hash m w vid out
          ≡ read_result out (row_of s vid) v)
        × SameServers padding net w v
  unfolding Client.get_vertex
  get_vertex_answers w vid i s out at_i up h =
      let (success, handled) = process_get_vertex padding s vid h in
      let (v, replied, after) =
        net.query_lem w i s s (get_message vid) success (get_reply (row_of s vid)) up handled in
      let valid = find_row-RowIsValid vid s.shard.vertex s.shard.vertex_data in
      let parsed = parse_get (row_of s vid) out (λ r e. valid r h.shard_valid.vertex_rows e) in
      (v, rw (at_i, replied, parsed), unchanged padding net w v i s up after)

  -- What the client's `get_vertex` returns after a change of one server.
  get_vertex_after :
      (w v : W) (vid i j : ℕ) (t s : Server) (out : Row)
      → ((k : ℕ) → net.server_at v k ≡ (if i == k then some t else net.server_at w k))
      → IsValid t
      → vertex_master sqrt vidhash edge_hash m vid ≡ ok j
      → net.server_at w j ≡ some s
      → IsValid s
      → (u : W) × (Client.get_vertex padding net sqrt vidhash edge_hash m v vid out
          ≡ read_result out (if i == j then row_of t vid else row_of s vid) u)
  get_vertex_after w v vid i j t s out after ht at_j up hs = elim (Bool-cases (i == j)) [
    | inl hit ↦
        let (u, answered, _) = get_vertex_answers v vid j t out at_j (after j ∙ rw hit) ht in
        (u, rw hit answered)
    | inr miss ↦
        let (u, answered, _) = get_vertex_answers v vid j s out at_j (after j ∙ rw miss up) hs in
        (u, rw miss answered)
  ]

  -- A valid vertex row that the client adds under an id that its master does not know is accepted.
  -- Afterwards the client reads it under this id, and under every other id what it read before, if
  -- the servers of both masters are up and valid.
  pub get_vertex-after_add :
      (w : W) (vid other i j : ℕ) (s s' : Server) (row out : Row)
      → vertex_master sqrt vidhash edge_hash m vid ≡ ok i
      → net.server_at w i ≡ some s
      → IsValid s
      → vertex_master sqrt vidhash edge_hash m other ≡ ok j
      → net.server_at w j ≡ some s'
      → IsValid s'
      → RowIsValid row
      → row.is_vertex ≡ true
      → Shard.has_vertex s.shard vid ≡ false
      → (v u : W) × (Client.add_vertex padding net sqrt vidhash edge_hash m w vid row ≡ ok (0, v))
        × (Client.get_vertex padding net sqrt vidhash edge_hash m v other out
            ≡ read_result out (if vid == other then some row else row_of s' other) u)
  unfolding Client.add_vertex
  get_vertex-after_add w vid other i j s s' row out at_i up h at_j up' h' k kind absent =
      let t : Server = record s { shard = with_vertex s.shard vid row } in
      let (v, replied, after) =
        net.query_lem w i s t (add_message vid row) true (Item.code 0 ∷ []) up
          (process_add_vertex padding s vid row k absent kind) in
      let (u, answered) =
        get_vertex_after w v other i j t s' out after (with_vertex-IsValid s vid row h k absent)
          at_j up' h' in
      (v, u, rw (at_i, replied), answered ∙ ap (λ o. read_result out o u) same_row)
    where
      same_row :
          (if i == j
            then row_of (record s { shard = with_vertex s.shard vid row }) other
            else row_of s' other)
          ≡ (if vid == other then some row else row_of s' other)
      same_row = elim (Bool-cases (i == j)) [
        | inl hit ↦
            let same : i ≡ j = (==_iff i j).0 hit in
            let here : net.server_at w i ≡ some s' =
              subst (λ k. net.server_at w k ≡ some s') (sym same) up' in
            let same_server : s ≡ s' = cc in
            rw (hit, row_after_add s vid other row h absent, same_server)
        | inr miss ↦ elim (Bool-cases (vid == other)) [
          | inl same_vid ↦
              let same : vid ≡ other = (==_iff vid other).0 same_vid in
              let at_i' = subst (λ x. vertex_master sqrt vidhash edge_hash m x ≡ ok i) same at_i in
              let same_shard : i ≡ j = cc in absurd (ground arith)
          | inr other_vid ↦ rw (miss, other_vid)
        ]
      ]
