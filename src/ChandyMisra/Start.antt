-- ===== src/ChandyMisra/Start.antt =====
-- The initial arrangement of the forks is sound: every fork is dirty, and lies at the end of its edge that
-- has the smaller rank.
use graphlabapi_graphlab.Prelude.Updates.{update_self, update_cases, update}
use graphlabapi_graphlab.Prelude.{
  ℕ, zero, suc, ◌+◌, ◌%◌, ◌^◌, ◌≤◌, ◌<◌, ◌≡◌, ◌≢◌, Bool, true, false, ◌||◌, ◌⊎◌, inl, inr, refl,
  sym, ap, ◌∙◌, arith, ◌==◌, ltb, if◌then◌else◌, ==_iff, ==_refl, Bool-cases, List, [], ◌∷◌,
}
use graphlabapi_graphlab.ChandyMisra.{
  Fork, Table, Edge, Graph, thinking, put_fork, state_of, gain, lay_fork, lay_forks, edges_below,
  new, clean,
}
use graphlabapi_graphlab.ChandyMisra.Count.{Ends, is_end, held, degree}
use graphlabapi_graphlab.ChandyMisra.Invariant.{IsSound, requested}
use graphlabapi_graphlab.ChandyMisra.Move.{gain-acquired, gain-same}
use graphlabapi_graphlab.ChandyMisra.Take.{IsEdge}

-- The forks that were laid, and how many of them a philosopher holds.
abbrev pub is_in : ℕ → List Edge → Bool
is_in i [] = false
is_in i (e ∷ edges) = (e.edge_id == i) || is_in i edges

abbrev laid_held : Ends → (ℕ → Bool) → (ℕ → Fork) → ℕ → ℕ → ℕ
laid_held ends laid forks v zero = 0
laid_held ends laid forks v (suc k) =
    (if laid k then is_end ends (forks k).owner k v else 0) + laid_held ends laid forks v k

-- The ids of the edges differ.
abbrev pub AreDistinct : List Edge → Type 0
AreDistinct [] = Unit
AreDistinct (e ∷ edges) = (is_in e.edge_id edges ≡ false) × AreDistinct edges

abbrev pub AreEdges : ℕ → Ends → List Edge → Type 0
AreEdges n ends [] = Unit
AreEdges n ends (e ∷ edges) = IsEdge n ends e × AreEdges n ends edges

module _ (ends : Ends) where
  laid_held_le : (laid : ℕ → Bool) (forks : ℕ → Fork) (v k : ℕ) → laid_held ends laid forks v k ≤ k
  laid_held_le laid forks v zero = omega arith
  laid_held_le laid forks v (suc k) = ground (arith, laid_held_le laid forks v k)

  laid_held_all :
      (laid : ℕ → Bool) (forks : ℕ → Fork) (v k : ℕ)
      → ((i : ℕ) → i < k → laid i ≡ true)
      → laid_held ends laid forks v k ≡ held ends forks v k
  laid_held_all laid forks v zero all = refl
  laid_held_all laid forks v (suc k) all = rw (all k (omega arith)) (
      ap (λ c. is_end ends (forks k).owner k v + c)
        (laid_held_all laid forks v k (λ i h. all i (omega arith))))

  laid_held_none : (forks : ℕ → Fork) (v k : ℕ) → laid_held ends (λ _. false) forks v k ≡ 0
  laid_held_none forks v zero = refl
  laid_held_none forks v (suc k) = omega (arith, laid_held_none forks v k)

  laid_held-other :
      (laid : ℕ → Bool) (forks : ℕ → Fork) (i : ℕ) (f : Fork) (v k : ℕ)
      → k ≤ i
      → laid_held ends (λ j. (i == j) || laid j) (update forks i f) v k
        ≡ laid_held ends laid forks v k
  laid_held-other laid forks i f v zero h = refl
  laid_held-other laid forks i f v (suc k) h = ground (arith, laid_held-other laid forks i f v k)

  laid_held-lay :
      (laid : ℕ → Bool) (forks : ℕ → Fork) (i : ℕ) (f : Fork) (v k : ℕ)
      → i < k
      → laid i ≡ false
      → laid_held ends (λ j. (i == j) || laid j) (update forks i f) v k
        ≡ laid_held ends laid forks v k + is_end ends f.owner i v
  laid_held-lay laid forks i f v zero h new = absurd (omega arith)
  laid_held-lay laid forks i f v (suc k) h new = elim (Bool-cases (i == k)) [
    | inl e ↦
        let same : i ≡ k = (==_iff i k).0 e in
        let here : update forks i f k ≡ f =
          ap (update forks i f) (sym same) ∙ update_self forks i f in
        let fresh : laid k ≡ false = ap laid (sym same) ∙ new in
        rw (e, fresh)
          (omega (
            arith,
            laid_held-other laid forks i f v k (omega arith),
            ap (λ j. is_end ends f.owner j v) same,
          ))
    | inr e ↦
        let below = laid_held-lay laid forks i f v k (ground (arith, ==_refl k)) new in
        rw e (omega (arith, below))
  ]

-- Between two edges of the arrangement.
record IsLaying (n : ℕ) (ends : Ends) (nums : ℕ → ℕ) (t : Table) (laid : ℕ → Bool) : Type 0 where
  acquired : (v : ℕ) → (t.philosopherset v).forks_acquired ≡ laid_held ends laid t.forkset v n
  nums_kept : (v : ℕ) → (t.philosopherset v).num_edges ≡ nums v
  at_rest : (v : ℕ) → state_of t v ≡ thinking
  unasked : (i : ℕ) (s : Bool) → requested s (t.forkset i) ≡ false

module _ (n : ℕ) (ends : Ends) (nums : ℕ → ℕ) (rank : ℕ → ℕ) (small : n < 2 ^ 32) where
  lay_fork-IsLaying :
      (t : Table) (laid : ℕ → Bool) (e : Edge)
      → IsLaying n ends nums t laid
      → IsEdge n ends e
      → laid e.edge_id ≡ false
      → IsLaying n ends nums (lay_fork rank t e) (λ j. (e.edge_id == j) || laid j)
  unfolding lay_fork gain
  lay_fork-IsLaying t laid e laying edge new =
      let i = e.edge_id in
      let from_target = ltb (rank e.target) (rank e.source) in
      let f : Fork = record (clean from_target) { dirty = true } in
      let holder = if from_target then e.target else e.source in
      let u = put_fork t i f in
      record {
        acquired = λ v.
            gain-acquired u holder v
            ∙ bump _ _ _ holder v (laying.acquired v)
                (laid_held-lay ends laid t.forkset i f v n edge.below new
                  ∙ ap (λ h. laid_held ends laid t.forkset v n + (if h == v then 1 else 0))
                      (end_of from_target))
                (laid_held_le ends (λ j. (i == j) || laid j) (update t.forkset i f) v n);
        nums_kept = λ v. (gain-same u holder v).1 ∙ laying.nums_kept v;
        at_rest = λ v. (gain-same u holder v).0 ∙ laying.at_rest v;
        unasked = λ j s.
            update_cases (λ _ g. requested s g ≡ false) t.forkset i f (clear s from_target)
              (λ k _. laying.unasked k s) j;
      }
    where
      bump :
          (c d d2 h v : ℕ)
          → c ≡ d
          → d2 ≡ d + (if h == v then 1 else 0)
          → d2 ≤ n
          → (if h == v then (c + 1) % 2 ^ 32 else c) ≡ d2
      bump c d d2 h v same more le = ground (arith, small)

      end_of : (s : Bool) → ends s e.edge_id ≡ (if s then e.target else e.source)
      end_of true = edge.to_target
      end_of false = edge.from_source

      clear : (s b : Bool) → requested s (record (clean b) { dirty = true }) ≡ false
      clear true b = refl
      clear false b = refl

  lay_forks-IsLaying :
      (t : Table) (laid : ℕ → Bool) (edges : List Edge)
      → IsLaying n ends nums t laid
      → AreEdges n ends edges
      → AreDistinct edges
      → ((i : ℕ) → is_in i edges ≡ true → laid i ≡ false)
      → (laid2 : ℕ → Bool) × IsLaying n ends nums (lay_forks rank t edges) laid2
        × ((i : ℕ) → (laid i || is_in i edges) ≡ true → laid2 i ≡ true)
  unfolding lay_forks
  lay_forks-IsLaying t laid [] laying real distinct new = (laid, laying, λ i h. ground (arith, h))
  lay_forks-IsLaying t laid (e ∷ edges) laying real distinct new =
      let first =
        lay_fork-IsLaying t laid e laying real.0 (new e.edge_id (rw (==_refl e.edge_id) refl)) in
      let rest =
        lay_forks-IsLaying (lay_fork rank t e) (λ j. (e.edge_id == j) || laid j) edges first real.1
          distinct.1 (λ i h. later i h (Bool-cases (e.edge_id == i))) in
      (rest.0, rest.1, λ i h. rest.2 i (ground (arith, h)))
    where
      later :
          (i : ℕ)
          → is_in i edges ≡ true
          → ((e.edge_id == i) ≡ true) ⊎ ((e.edge_id == i) ≡ false)
          → ((e.edge_id == i) || laid i) ≡ false
      later i h (inl same) =
          absurd
            (ground (arith, h, ap (λ j. is_in j edges) ((==_iff e.edge_id i).0 same), distinct.0))
      later i h (inr differ) = ground (arith, differ, new i (ground (arith, h)))

-- What the arrangement relies on of the graph: the in-edges of the vertices are the edges, each of them
-- once, and the two numbers of edges of a vertex are those of its edges.
pub record IsWhole (n : ℕ) (ends : Ends) (g : Graph) : Type 0 where
  pub real : AreEdges n ends (edges_below g g.num_vertices)
  pub distinct : AreDistinct (edges_below g g.num_vertices)
  pub covers : (i : ℕ) → i < n → is_in i (edges_below g g.num_vertices) ≡ true
  pub degrees : (v : ℕ) → g.num_in_edges v + g.num_out_edges v ≡ degree ends v n

degree_le : (ends : Ends) → ((j : ℕ) → ends true j ≢ ends false j) → (v k : ℕ) → degree ends v k ≤ k
degree_le ends loopless v zero = omega arith
degree_le ends loopless v (suc k) = ground (arith, degree_le ends loopless v k, loopless k)

pub new-IsSound :
    (n : ℕ) (ends : Ends) (g : Graph) (rank : ℕ → ℕ)
    → n < 2 ^ 32
    → ((j : ℕ) → ends true j ≢ ends false j)
    → IsWhole n ends g
    → IsSound n ends (new rank g)
unfolding new
new-IsSound n ends g rank small loopless whole =
    let all = edges_below g g.num_vertices in
    let nums : ℕ → ℕ = λ v. (g.num_in_edges v + g.num_out_edges v) % 2 ^ 32 in
    let start : Table = record {
      forkset = λ _. clean false;
      philosopherset = λ v. record { num_edges = nums v; forks_acquired = 0; state = thinking };
    } in
    let end =
      lay_forks-IsLaying n ends nums rank small start (λ _. false) all
        (record {
          acquired = λ v. sym (laid_held_none ends start.forkset v n);
          nums_kept = λ v. refl;
          at_rest = λ v. refl;
          unasked = λ i. elim [ true ↦ refl | false ↦ refl ];
        })
        whole.real whole.distinct (λ i _. refl) in
    let laying = end.1 in
    record {
      acquired = λ v.
          laying.acquired v
          ∙ laid_held_all ends end.0 (lay_forks rank start all).forkset v n
              (λ i below. end.2 i (whole.covers i below));
      counted = λ v.
          laying.nums_kept v ∙ omega (arith, whole.degrees v, degree_le ends loopless v n, small);
      eats = λ i s below h. absurd (ground (arith, sym (laying.at_rest (ends s i)) ∙ h));
      asks = λ i s below h. absurd (ground (arith, sym (laying.unasked i s) ∙ h));
    }

lay_forks-state :
    (rank : ℕ → ℕ) (t : Table) (edges : List Edge) (v : ℕ)
    → state_of (lay_forks rank t edges) v ≡ state_of t v
unfolding lay_forks lay_fork gain
lay_forks-state rank t [] v = refl
lay_forks-state rank t (e ∷ edges) v =
    lay_forks-state rank (lay_fork rank t e) edges v
    ∙ (gain-same t (if ltb (rank e.target) (rank e.source) then e.target else e.source) v).0

pub new-at_rest : (rank : ℕ → ℕ) (g : Graph) (v : ℕ) → state_of (new rank g) v ≡ thinking
unfolding new
new-at_rest rank g v = lay_forks-state rank _ (edges_below g g.num_vertices) v
