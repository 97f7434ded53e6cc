-- ===== src/DenseBitset/Transfer/Round.antt =====
-- The loop of `transfer_approximate_unsafe`: what it has moved, and which words it has seen.
use Prim.Native.Nat.{bit_or}
use graphlabapi_graphlab.Prelude.{
  ℕ, zero, suc, ◌+◌, ◌-◌, ◌≤◌, ◌<◌, ◌≡◌, refl, sym, subst, arith, ltb, leb, ◌==◌, if◌then◌else◌,
  Bool, true, false, not, ◌&&◌, ◌||◌, ◌⊎◌, inl, inr, Option, some, if_split, eq_cases,
}
use graphlabapi_graphlab.Prelude.Updates.{update, update_self, update_other}
use graphlabapi_graphlab.DenseBitset.{ones}
use graphlabapi_graphlab.DenseBitset.Search.{ones_of}
use graphlabapi_graphlab.DenseBitset.Transfer.{Moving, move_word, transfer_loop}

-- A word stays where it is, or all of its bits have gone over and it is 0.
abbrev pub IsMovedWord : ℕ → ℕ → ℕ → ℕ → Type 0
IsMovedWord mine theirs t o = ((t ≡ mine) × (o ≡ theirs)) ⊎ ((t ≡ bit_or mine theirs) × (o ≡ 0))

-- What the loop has done to the `n` words `mine` and `theirs`: bits are neither lost nor made.
pub record IsMoved (mine theirs : ℕ → ℕ) (n : ℕ) (m : Moving) : Type 0 where
  pub each_word : (i : ℕ) → i < n → IsMovedWord (mine i) (theirs i) (m.mine i) (m.theirs i)
  pub total : m.transferred + ones_of m.theirs n ≡ ones_of theirs n

ones_of_congr : (a b : ℕ → ℕ) (n : ℕ) → ((i : ℕ) → i < n → a i ≡ b i) → ones_of a n ≡ ones_of b n
unfolding ones_of
ones_of_congr a b zero h = refl
ones_of_congr a b (suc n) h =
    rw (h n (omega arith), ones_of_congr a b n (λ i lt. h i (omega arith))) refl

zero_word : (x y : ℕ) → x + ones 64 0 + y ≡ x + y
unfolding ones
zero_word x y = omega arith

ones_of_update :
    (a : ℕ → ℕ) (p n : ℕ) → p < n → ones_of (update a p 0) n + ones 64 (a p) ≡ ones_of a n
unfolding ones_of
ones_of_update a p zero h = absurd (omega (arith, h))
ones_of_update a p (suc n) h = elim (eq_cases p n) [
  | inl e ↦
      subst (λ q. ones_of (update a q 0) (suc n) + ones 64 (a q) ≡ ones_of a (suc n)) (sym e)
        (rw
          (
            update_self a n 0,
            ones_of_congr (update a n 0) a n
                (λ i lt. update_other a 0 (λ same. absurd (omega (arith, same, lt)))),
          )
          (zero_word (ones_of a n) (ones 64 (a n))))
  | inr d ↦ rw (update_other a 0 d) (omega (arith, ones_of_update a p n (omega (arith, h, d))))
]

module _ (mine theirs : ℕ → ℕ) (n : ℕ) where
  moved_word :
      (m : Moving)
      → m.at < n
      → IsMovedWord (mine m.at) (theirs m.at) (m.mine m.at) (m.theirs m.at)
      → ltb 0 (m.theirs m.at) ≡ true
      → (i : ℕ) → IsMovedWord (mine i) (theirs i) (m.mine i) (m.theirs i)
      → IsMovedWord
          (mine i)
          (theirs i)
          (update m.mine m.at (bit_or (m.mine m.at) (m.theirs m.at)) i)
          (update m.theirs m.at 0 i)
  moved_word m h here e i there = elim (eq_cases m.at i) [
    | inl same ↦
        subst
          (λ j.
            IsMovedWord (mine j) (theirs j)
              (update m.mine m.at (bit_or (m.mine m.at) (m.theirs m.at)) j)
              (update m.theirs m.at 0 j))
          same
          (elim here [
            | inl (t, o) ↦ inr (
              rw (update_self m.mine m.at (bit_or (m.mine m.at) (m.theirs m.at)), t, o) refl,
              update_self m.theirs m.at 0,
            )
            | inr (t, o) ↦ ground (arith, e, o)
          ])
    | inr d ↦
        rw (update_other m.mine (bit_or (m.mine m.at) (m.theirs m.at)) d, update_other m.theirs 0 d)
          there
  ]

  pub move_word-IsMoved :
      (m : Moving) → m.at < n → IsMoved mine theirs n m → IsMoved mine theirs n (move_word m)
  unfolding move_word
  move_word-IsMoved m h k =
      if_split (λ r. IsMoved mine theirs n r) (ltb 0 (m.theirs m.at))
        (λ e. record {
          each_word = λ i lt. moved_word m h (k.each_word m.at h) e i (k.each_word i lt);
          total = omega (arith, k.total, ones_of_update m.theirs m.at n h);
        })
        (λ e. k)

  move_word-empties : (m : Moving) → (move_word m).theirs m.at ≡ 0
  unfolding move_word
  move_word-empties m =
      if_split (λ (r : Moving). r.theirs m.at ≡ 0) (ltb 0 (m.theirs m.at))
        (λ e. update_self m.theirs m.at 0) (λ e. ground (arith, e))

  move_word_keeps : (m : Moving) (i : ℕ) → m.theirs i ≡ 0 → (move_word m).theirs i ≡ 0
  unfolding move_word
  move_word_keeps m i z =
      if_split (λ (r : Moving). r.theirs i ≡ 0) (ltb 0 (m.theirs m.at)) (λ e. ground (arith, z))
        (λ e. z)

  pub move_word-at : (m : Moving) → (move_word m).at ≡ m.at
  unfolding move_word
  move_word-at m =
      if_split (λ (r : Moving). r.at ≡ m.at) (ltb 0 (m.theirs m.at)) (λ _. refl) (λ _. refl)

  -- The words that the loop has seen when it is at `p`, having begun at `initial`.
  abbrev visited : ℕ → ℕ → ℕ → Bool
  visited initial p i =
      if leb initial p then leb initial i && ltb i p else (leb initial i || ltb i p)

  -- How the loop ends.
  pub record IsDone (b : ℕ) (m : Moving) : Type 0 where
    pub moved : IsMoved mine theirs n m
    pub enough : (b ≤ m.transferred) ⊎ ((i : ℕ) → i < n → m.theirs i ≡ 0)
    pub stops_in : m.at ≤ n

  abbrev pub Ends : ℕ → Option Moving → Type 0
  Ends b o = (m : Moving) × (o ≡ some m) × IsDone b m

  -- Words to go until the loop is at `initial` again.
  abbrev pub to_go : ℕ → ℕ → ℕ
  to_go initial p = if leb initial p then (n - p) + initial else initial - p

  module _ (b initial : ℕ) (later : 0 < initial) (within : initial < n) where
    after-lt : (p : ℕ) → initial < n → (if leb n (p + 1) then 0 else p + 1) < n
    after-lt p h = ground (arith, h)

    after_less :
        (p : ℕ) {fuel : ℕ}
        → p < n
        → not (leb n (p + 1)) && (p + 1 == initial) ≡ false
        → to_go initial p < suc fuel
        → to_go initial (if leb n (p + 1) then 0 else p + 1) < fuel
    after_less p h e enough = ground (arith, e, enough, later, within)

    seen_all :
        (p i : ℕ)
        → not (leb n (p + 1)) && (p + 1 == initial) ≡ true
        → (i ≡ p) ⊎ (visited initial p i ≡ true)
    seen_all p i e = elim (eq_cases i p) [
      | inl same ↦ inl same
      | inr d ↦ inr (ground (arith, e, d))
    ]

    seen_after :
        (p i : ℕ)
        → p < n
        → i < n
        → not (leb n (p + 1)) && (p + 1 == initial) ≡ false
        → visited initial (if leb n (p + 1) then 0 else p + 1) i ≡ true
        → (i ≡ p) ⊎ (visited initial p i ≡ true)
    seen_after p i h lt e v = elim (eq_cases i p) [
      | inl same ↦ inl same
      | inr d ↦ inr (ground (arith, e, d, v, later, within))
    ]

    pub loop-Ends :
        (fuel : ℕ) (m : Moving)
        → m.at < n
        → to_go initial m.at < fuel
        → IsMoved mine theirs n m
        → ((i : ℕ) → i < n → visited initial m.at i ≡ true → m.theirs i ≡ 0)
        → Ends b (transfer_loop fuel b initial n m)
    unfolding transfer_loop
    loop-Ends zero m low enough k seen = absurd (omega (arith, enough))
    loop-Ends (suc fuel) m low enough k seen =
        let moved = move_word-IsMoved m low k in
        let empties : (i : ℕ)
            → i < n
            → (i ≡ m.at) ⊎ (visited initial m.at i ≡ true)
            → (move_word m).theirs i ≡ 0 =
          λ i lt c. elim c [
            | inl e ↦ subst (λ j. (move_word m).theirs j ≡ 0) (sym e) (move_word-empties m)
            | inr e ↦ move_word_keeps m i (seen i lt e)
          ] in
        if_split (λ o. Ends b o) (not (ltb m.transferred b))
          (λ e. (
            m,
            refl,
            record { moved = k; enough = inl (ground (arith, e)); stops_in = omega (arith, low) },
          ))
          (λ _.
            if_split (λ o. Ends b o) (not (leb n (m.at + 1)) && (m.at + 1 == initial))
              (λ e. (
                record (move_word m) { at = m.at + 1 },
                refl,
                record {
                  moved = record { each_word = moved.each_word; total = moved.total };
                  enough = inr (λ i lt. empties i lt (seen_all m.at i e));
                  stops_in = omega (arith, low);
                },
              ))
              (λ e.
                loop-Ends fuel
                  (record (move_word m) { at = if leb n (m.at + 1) then 0 else m.at + 1 })
                  (after-lt m.at within) (after_less m.at low e enough)
                  record { each_word = moved.each_word; total = moved.total }
                  (λ i lt v. empties i lt (seen_after m.at i low lt e v))))
