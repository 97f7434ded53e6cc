-- ===== src/Shard/Spec.antt =====
-- What the indexes of a shard should say, as functions of its arrays.
use graphlabapi_graphlab.Prelude.{
  ℕ, zero, suc, ◌+◌, ◌<◌, ◌≡◌, Bool, Option, none, some, List, [], ◌∷◌, ◌++◌, length, get_elem?,
  ◌==◌, if◌then◌else◌, arith, Bool-cases, inl, inr,
}

-- The first position of `v`, counting from `i`.
unfoldable pub index_of : ℕ → List ℕ → ℕ → Option ℕ
index_of v [] i = none
index_of v (x ∷ xs) i = if x == v then some i else index_of v xs (i + 1)

-- The positions of the edges with `vid` at the given end, in order, counting from `i`.
unfoldable pub positions : (ℕ × ℕ → ℕ) → ℕ → List (ℕ × ℕ) → ℕ → List ℕ
positions end vid [] i = []
positions end vid (e ∷ edges) i =
    let rest = positions end vid edges (i + 1) in if end e == vid then i ∷ rest else rest

abbrev pub source_of : ℕ × ℕ → ℕ
source_of e = e.0

abbrev pub target_of : ℕ × ℕ → ℕ
target_of e = e.1

-- The end of an edge by which the index of in-edges, or of out-edges, is sorted.
abbrev pub near_end : Bool → ℕ × ℕ → ℕ
near_end is_in_edges e = if is_in_edges then e.1 else e.0

pub positions-append :
    (end : ℕ × ℕ → ℕ) (vid : ℕ) (edges : List (ℕ × ℕ)) (e : ℕ × ℕ) (i : ℕ)
    → positions end vid (edges ++ e ∷ []) i ≡ (
        if end e == vid
        then positions end vid edges i ++ (i + length edges) ∷ []
        else positions end vid edges i)
unfolding positions
positions-append end vid [] e i = ground arith
positions-append end vid (x ∷ edges) e i = ground (arith, positions-append end vid edges e (i + 1))

abbrev pub first_some : Option ℕ → Option ℕ → Option ℕ
first_some none q = q
first_some (some p) q = some p

pub index_of-append :
    (v : ℕ) (xs : List ℕ) (x : ℕ) (i : ℕ)
    → index_of v (xs ++ x ∷ []) i
      ≡ first_some (index_of v xs i) (if x == v then some (i + length xs) else none)
unfolding index_of
index_of-append v [] x i = ground arith
index_of-append v (y ∷ xs) x i = ground (arith, index_of-append v xs x (i + 1))

-- `index_of` finds a position that holds the value.
pub index_of_sound :
    (v : ℕ) (xs : List ℕ) (i p : ℕ)
    → index_of v xs i ≡ some p
    → (k : ℕ) × (p ≡ i + k) × (k < length xs) × (get_elem? xs k ≡ some v)
unfolding index_of
index_of_sound v [] i p h = cc
index_of_sound v (x ∷ xs) i p h = elim (Bool-cases (x == v)) [
  | inl same ↦ (0, ground arith, omega arith, ground arith)
  | inr other ↦
      let (k, e, below, found) = index_of_sound v xs (i + 1) p (ground arith) in
      (suc k, omega arith, omega arith, found)
]

pub index_of-none :
    (v : ℕ) (xs : List ℕ) (i p : ℕ) → index_of v xs i ≡ none → get_elem? xs p ≡ some v → ⊥
unfolding index_of
index_of-none v [] i p h e = cc
index_of-none v (x ∷ xs) i zero h e = ground arith
index_of-none v (x ∷ xs) i (suc p) h e = index_of-none v xs (i + 1) p (ground arith) e
