-- ===== src/Dispatch/Safety.antt =====
-- What messages do to a shard server over its life.
use graphlabapi_graphlab.Prelude.{
  ℕ, ◌+◌, ◌<◌, ◌≤◌, ◌≡◌, ◌^◌, refl, sym, ◌∙◌, Bool, true, ◌&&◌, List, [], ◌∷◌, ◌++◌, length,
  length-snoc, ◌==◌, arith, subst, Bool-cases, inl, inr, if◌then◌else◌,
}
use graphlabapi_graphlab.Prelude.Run.{Run, ok, fault, bad_cast, ◌>>=◌}
use graphlabapi_graphlab.Row.{Row, RowIsValid, is_edge}
use graphlabapi_graphlab.Shard
use graphlabapi_graphlab.Shard.Invariant.{with_edge}
use graphlabapi_graphlab.Server
use graphlabapi_graphlab.Server.{Server}
use graphlabapi_graphlab.Server.Add.{add_edge_lem}
use graphlabapi_graphlab.Server.Batch
use graphlabapi_graphlab.Server.Batch.{EdgeInsert, write_loop}
use graphlabapi_graphlab.Server.Schema.{has_values}
use graphlabapi_graphlab.Server.Together.{All, GoodRow}
use graphlabapi_graphlab.Server.History.{Reachable, Reachable-IsValid}
use graphlabapi_graphlab.Message.{Item}

abbrev pub GoodInsert : EdgeInsert → Type 0
GoodInsert e = RowIsValid e.row

-- An argument that may reach a server: a row is valid and comes to a shard of less than 2^32 edges, a
-- field has a type with values, the rows of a batch are valid, and its edges leave the shard with at
-- most 2^32 of them.
abbrev pub GoodItem : Server → Item → Type 0
GoodItem s (Item.row r) = RowIsValid r × (Shard.num_edges s.shard < 2 ^ 32)
GoodItem s (Item.field f) = has_values f.type ≡ true
GoodItem s (Item.id_rows pairs) = All GoodRow pairs
GoodItem s (Item.edge_inserts edges) =
    All GoodInsert edges × (Shard.num_edges s.shard + length edges ≤ 2 ^ 32)
GoodItem s _ = Unit

abbrev pub GoodItems : Server → List Item → Type 0
GoodItems s [] = Unit
GoodItems s (x ∷ items) = GoodItem s x × GoodItems s items

-- A sequence of two calls returns only if both do.
pub bind_returns :
    {A B : Type 0} (call : Run A) (next : A → Run B) (result : B)
    → (call >>= next) ≡ ok result
    → (a : A) × (call ≡ ok a) × (next a ≡ ok result)
bind_returns fault next result h = cc
bind_returns bad_cast next result h = cc
bind_returns (ok a) next result h = (a, refl, h)

module _ {A : Type 0} (method : Server → A → Run (ℕ × Server)) (good : Server → List A → Type 0)
    (step : (s t : Server) (x : A) (xs : List A) (err : ℕ)
      → Reachable s
      → good s (x ∷ xs)
      → method s x ≡ ok (err, t)
      → Reachable t × good t xs) where
  write_loop-Reachable :
      (s : Server) (xs : List A) (errorcodes codes : List ℕ) (success all : Bool) (t : Server)
      → Reachable s
      → good s xs
      → write_loop method s xs errorcodes success ≡ ok (all, codes, t)
      → Reachable t
  unfolding write_loop
  write_loop-Reachable s [] errorcodes codes success all t r g e =
      let same : s ≡ t = cc in subst Reachable same r
  write_loop-Reachable s (x ∷ xs) errorcodes codes success all t r g e =
      let ((err, u), made, rest) = bind_returns (method s x) _ (all, codes, t) e in
      let (reached, still) = step s u x xs err r g made in
      write_loop-Reachable u xs (errorcodes ++ err ∷ []) codes (success && err == 0) all t reached
        still rest

pub add_vertices-Reachable :
    (s : Server) (vertices : List (ℕ × Row)) (codes : List ℕ) (all : Bool) (t : Server)
    → Reachable s
    → All GoodRow vertices
    → Batch.add_vertices s vertices [] ≡ ok (all, codes, t)
    → Reachable t
unfolding Batch.add_vertices
add_vertices-Reachable s vertices codes all t r g e =
    write_loop-Reachable (λ u p. Server.add_vertex u p.0 p.1) (λ u xs. All GoodRow xs)
      (λ u v x xs err reached good made.
        (Reachable.vertex_added u v x.0 err x.1 reached good.0 made, good.1))
      s vertices [] codes true all t r g e

pub set_vertices-Reachable :
    (s : Server) (pairs : List (ℕ × Row)) (codes : List ℕ) (all : Bool) (t : Server)
    → Reachable s
    → All GoodRow pairs
    → Batch.set_vertices s pairs [] ≡ ok (all, codes, t)
    → Reachable t
unfolding Batch.set_vertices
set_vertices-Reachable s pairs codes all t r g e =
    write_loop-Reachable (λ u p. Server.set_vertex u p.0 p.1) (λ u xs. All GoodRow xs)
      (λ u v x xs err reached good made.
        (Reachable.vertex_set u v x.0 err x.1 reached good.0 made, good.1))
      s pairs [] codes true all t r g e

pub set_edges-Reachable :
    (s : Server) (pairs : List (ℕ × Row)) (codes : List ℕ) (all : Bool) (t : Server)
    → Reachable s
    → All GoodRow pairs
    → Batch.set_edges s pairs [] ≡ ok (all, codes, t)
    → Reachable t
unfolding Batch.set_edges
set_edges-Reachable s pairs codes all t r g e =
    write_loop-Reachable (λ u p. Server.set_edge u p.0 p.1) (λ u xs. All GoodRow xs)
      (λ u v x xs err reached good made.
        (Reachable.edge_set u v x.0 err x.1 reached good.0 made, good.1))
      s pairs [] codes true all t r g e

pub add_vertex_mirrors-Reachable :
    (s : Server) (pairs : List (ℕ × List ℕ)) (codes : List ℕ) (all : Bool) (t : Server)
    → Reachable s
    → Batch.add_vertex_mirrors s pairs [] ≡ ok (all, codes, t)
    → Reachable t
unfolding Batch.add_vertex_mirrors
add_vertex_mirrors-Reachable s pairs codes all t r e =
    write_loop-Reachable (λ u p. Server.add_vertex_mirror u p.0 p.1) (λ u xs. Unit)
      (λ u v x xs err reached good made. (Reachable.mirrors_added u v x.0 err x.1 reached made, tt))
      s pairs [] codes true all t r tt e

-- One more edge at most.
add_edge-num_edges :
    (s t : Server) (source target err : ℕ) (row : Row)
    → Reachable s
    → RowIsValid row
    → Shard.num_edges s.shard < 2 ^ 32
    → Server.add_edge s source target row ≡ ok (err, t)
    → Shard.num_edges t.shard ≤ Shard.num_edges s.shard + 1
add_edge-num_edges s t source target err row r k small e =
    let (_, u, made, _, _, shape) =
      add_edge_lem s source target row (Reachable-IsValid s r) k small in
    let same : u ≡ t = cc in
    let grown = length-snoc s.shard.edge (source, target) in
    let bounded : Shard.num_edges
          (if is_edge row
            then record s { shard = with_edge s.shard source target row }
            else s).shard
        ≤ Shard.num_edges s.shard + 1 =
      elim (Bool-cases (is_edge row)) [
        | inl edge ↦ rw edge (omega (arith, grown))
        | inr vertex ↦ rw vertex (omega arith)
      ] in
    subst (λ x. Shard.num_edges x.shard ≤ Shard.num_edges s.shard + 1) (sym shape ∙ same) bounded

pub add_edges-Reachable :
    (s : Server) (edges : List EdgeInsert) (codes : List ℕ) (all : Bool) (t : Server)
    → Reachable s
    → All GoodInsert edges
    → Shard.num_edges s.shard + length edges ≤ 2 ^ 32
    → Batch.add_edges s edges [] ≡ ok (all, codes, t)
    → Reachable t
unfolding Batch.add_edges
add_edges-Reachable s edges codes all t r g room e =
    write_loop-Reachable (λ u x. Server.add_edge u x.src x.dest x.row)
      (λ u xs. All GoodInsert xs × (Shard.num_edges u.shard + length xs ≤ 2 ^ 32))
      (λ u v x xs err reached good made.
        let small : Shard.num_edges u.shard < 2 ^ 32 = omega (arith, good.1) in
        let grown = add_edge-num_edges u v x.src x.dest err x.row reached good.0.0 small made in
        (
          Reachable.edge_added u v x.src x.dest err x.row reached good.0.0 small made,
          (good.0.1, omega (arith, good.1, grown)),
        ))
      s edges [] codes true all t r (g, room) e
