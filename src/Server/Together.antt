-- ===== src/Server/Together.antt =====
-- The batch methods of the shard server as runs of the single ones.
use graphlabapi_graphlab.Prelude.{
  ℕ, ◌≡◌, refl, ◌∙◌, Bool, true, false, ◌&&◌, Option, none, some, List, [], ◌∷◌, ◌++◌, ◌==◌, map,
}
use mathlib.Core.List.{append-nil, append_assoc}
use graphlabapi_graphlab.Prelude.Run.{Run, ok}
use graphlabapi_graphlab.Row.{Row, RowIsValid, empty_row}
use graphlabapi_graphlab.Server.{Server, set_vertex, get_vertex, einvid}
use graphlabapi_graphlab.Server.Invariant.{IsValid}
use graphlabapi_graphlab.Server.Read.{find_row, answer, get_vertex_lem}
use graphlabapi_graphlab.Server.Write.{set_vertex_lem}
use graphlabapi_graphlab.Server.Batch.{write_loop, read_loop, get_vertices, set_vertices}

-- The method run on each element in turn, with its codes; a code other than 0 stops nothing.
pub data Steps {A : Type 0} (method : Server → A → Run (ℕ × Server))
    : Server → List A → List ℕ → Server → Type 0 where
  done : (s : Server) → Steps method s [] [] s
  next :
      (s t u : Server) (x : A) (xs : List A) (err : ℕ) (codes : List ℕ)
      → method s x ≡ ok (err, t)
      → Steps method t xs codes u
      → Steps method s (x ∷ xs) (err ∷ codes) u

abbrev pub all_zero : List ℕ → Bool
all_zero [] = true
all_zero (c ∷ codes) = c == 0 && all_zero codes

abbrev pub All : {A : Type 0} → (A → Type 0) → List A → Type 0
All good [] = Unit
All good (x ∷ xs) = good x × All good xs

and_true : (b : Bool) → (b && true) ≡ b
and_true true = refl
and_true false = refl

and_assoc : (a b c : Bool) → ((a && b) && c) ≡ (a && (b && c))
and_assoc true b c = refl
and_assoc false b c = refl

-- What a batch does: it runs every step, returns their codes behind the old ones, and succeeds if
-- all of them are 0.
abbrev pub Batched :
    {A : Type 0}
    → (Server → A → Run (ℕ × Server))
    → Server
    → List A
    → List ℕ
    → Bool
    → Run (Bool × List ℕ × Server)
    → Type 0
Batched method s xs errorcodes success result =
    (codes : List ℕ) × (t : Server) × (result
      ≡ ok (success && all_zero codes, errorcodes ++ codes, t))
    × Steps method s xs codes t
    × IsValid t

module _ {A : Type 0} (method : Server → A → Run (ℕ × Server)) (good : A → Type 0)
    (step : (s : Server) (x : A)
      → IsValid s
      → good x
      → (err : ℕ) × (t : Server) × (method s x ≡ ok (err, t)) × IsValid t) where
  write_loop_lem :
      (s : Server) (xs : List A) (errorcodes : List ℕ) (success : Bool)
      → IsValid s
      → All good xs
      → Batched method s xs errorcodes success (write_loop method s xs errorcodes success)
  unfolding write_loop
  write_loop_lem s [] errorcodes success h k =
      ([], s, rw (append-nil errorcodes, and_true success), done s, h)
  write_loop_lem s (x ∷ xs) errorcodes success h k =
      let (err, t, e, valid) = step s x h k.0 in
      let (codes, u, rest, steps, u_valid) =
        write_loop_lem t xs (errorcodes ++ err ∷ []) (success && err == 0) valid k.1 in
      (
        err ∷ codes,
        u,
        rw e (
            rest
            ∙ rw (
              and_assoc success (err == 0) (all_zero codes),
              append_assoc errorcodes (err ∷ []) codes,
            )),
        next s t u x xs err codes e steps,
        u_valid,
      )

abbrev pub GoodRow : ℕ × Row → Type 0
GoodRow p = RowIsValid p.1

-- The same of `set_vertices`.
pub set_vertices_lem :
    (s : Server) (pairs : List (ℕ × Row)) (errorcodes : List ℕ)
    → IsValid s
    → All GoodRow pairs
    → Batched
        (λ t p. set_vertex t p.0 p.1)
        s
        pairs
        errorcodes
        true
        (set_vertices s pairs errorcodes)
unfolding set_vertices
set_vertices_lem s pairs errorcodes h k =
    write_loop_lem (λ t p. set_vertex t p.0 p.1) GoodRow
      (λ t p valid good.
        let (u, e, v, _) = set_vertex_lem t p.0 p.0 p.1 empty_row valid good tt in (_, u, e, v))
      s pairs errorcodes true h k

-- The codes and rows that `get_vertices` collects.
abbrev pub read_code : Option Row → ℕ
read_code none = einvid
read_code (some r) = 0

abbrev pub read_row_or_empty : Option Row → Row
read_row_or_empty none = empty_row
read_row_or_empty (some r) = r

answer_lem : (o : Option Row) → answer empty_row o ≡ ok (read_code o, read_row_or_empty o)
answer_lem none = refl
answer_lem (some r) = refl

read_loop_lem :
    (s : Server) (vids : List ℕ) (out : List Row) (errorcodes : List ℕ) (success : Bool)
    → IsValid s
    → let found = map (λ vid. find_row vid s.shard.vertex s.shard.vertex_data) vids in
      read_loop get_vertex s vids out errorcodes success
      ≡ ok (
        success && all_zero (map read_code found),
        out ++ map read_row_or_empty found,
        errorcodes ++ map read_code found,
      )
unfolding read_loop
read_loop_lem s [] out errorcodes success h =
    rw (append-nil errorcodes, append-nil out, and_true success)
read_loop_lem s (vid ∷ vids) out errorcodes success h =
    let one = find_row vid s.shard.vertex s.shard.vertex_data in
    let here : get_vertex s vid empty_row ≡ ok (read_code one, read_row_or_empty one) =
      get_vertex_lem s vid empty_row h tt ∙ answer_lem one in
    let rest =
      read_loop_lem s vids (out ++ read_row_or_empty one ∷ []) (errorcodes ++ read_code one ∷ [])
        (success && read_code one == 0) h in
    let found = map (λ v. find_row v s.shard.vertex s.shard.vertex_data) vids in
    rw here (
      rest
      ∙ rw (
        and_assoc success (read_code one == 0) (all_zero (map read_code found)),
        append_assoc out (read_row_or_empty one ∷ []) (map read_row_or_empty found),
        append_assoc errorcodes (read_code one ∷ []) (map read_code found),
      ))

-- On a valid server `get_vertices` reads every id by the scan of the arrays: a missing one yields
-- EINVID and a fresh row in its place, and the batch succeeds exactly if none is missing.
pub get_vertices_lem :
    (s : Server) (vids errorcodes : List ℕ)
    → IsValid s
    → let found = map (λ vid. find_row vid s.shard.vertex s.shard.vertex_data) vids in
      get_vertices s vids errorcodes
      ≡ ok (
        all_zero (map read_code found),
        map read_row_or_empty found,
        errorcodes ++ map read_code found,
      )
unfolding get_vertices
get_vertices_lem s vids errorcodes h = read_loop_lem s vids [] errorcodes true h
