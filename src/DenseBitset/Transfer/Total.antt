-- ===== src/DenseBitset/Transfer/Total.antt =====
-- The call `transfer_approximate_unsafe`, on the sets of two bitsets.
use graphlabapi_graphlab.Prelude.{
  ℕ, zero, suc, ◌+◌, ◌-◌, ◌/◌, ◌%◌, ◌≤◌, ◌<◌, ◌≡◌, refl, sym, subst, ◌∙◌, arith, ltb, leb, ◌==◌,
  lt→ltb, if◌then◌else◌, Bool, true, false, not, ◌&&◌, ◌||◌, ◌⊎◌, inl, inr, Option, none, some,
}
use graphlabapi_graphlab.Prelude.Run.{ok}
use graphlabapi_graphlab.Prelude.Bits.{bit-zero}
use graphlabapi_graphlab.DenseBitset.{Bitset}
use graphlabapi_graphlab.DenseBitset.Members.{Holds, digit, words_enough, words_cover}
use graphlabapi_graphlab.DenseBitset.Search.{ones_of}
use graphlabapi_graphlab.DenseBitset.Search.Count.{count}
use graphlabapi_graphlab.DenseBitset.Transfer.{
  Moving, Transferred, transfer_loop, transfer_approximate_unsafe, from_loop, move_word,
}
use graphlabapi_graphlab.DenseBitset.Transfer.Round.{IsMoved, loop-Ends, move_word-IsMoved}
use graphlabapi_graphlab.DenseBitset.Transfer.Moved.{
  below_n, words_this, same_len, same_arrlen, start-IsMoved, few_ones, digit_moved, other-Holds,
  this-Holds, counted_lem,
}

never : (m : Option Moving) (x : Bool) → (if x && false then m else none) ≡ none
never m true = refl
never m false = refl

-- From word 0, the test for the end of the round is never true.
loop_stuck :
    (mine theirs : ℕ → ℕ) (n b : ℕ)
    → ones_of theirs n < b
    → (fuel : ℕ) (m : Moving) → m.at < n
    → IsMoved mine theirs n m
    → transfer_loop fuel b 0 n m ≡ none
unfolding transfer_loop
loop_stuck mine theirs n b few zero m low w = refl
loop_stuck mine theirs n b few (suc fuel) m low w =
    let more : ltb m.transferred b ≡ true = lt→ltb _ _ (omega (arith, w.total, few)) in
    let missed : (m.at + 1 == 0) ≡ false = ground arith in
    let moved = move_word-IsMoved mine theirs n m low w in
    let at : ℕ = if leb n (m.at + 1) then 0 else m.at + 1 in
    let rest =
      loop_stuck mine theirs n b few fuel (record (move_word m) { at = at }) (ground (arith, low))
        record { each_word = moved.each_word; total = moved.total } in
    rw (more, missed, rest) (never _ (not (leb n (m.at + 1))))

-- Bits went from `g` to `f`: what `other` has left is in `g`, `this` has the rest of `g` besides
-- `f`, the count is right, and at least `b` bits went unless none is left.
pub record IsTransferred (n : ℕ) (f g : ℕ → Bool) (b : ℕ) (r : Transferred) : Type 0 where
  pub remain : Holds n (digit r.other) r.other
  pub gained : Holds n (λ j. f j || g j && not (digit r.other j)) r.this
  pub from_g : (j : ℕ) → j < n → digit r.other j ≡ true → g j ≡ true
  pub counted : r.b + count (digit r.other) n ≡ count g n
  pub enough : (b ≤ r.b) ⊎ ((j : ℕ) → j < n → digit r.other j ≡ false)

go : (n p : ℕ) → p < n → (if leb p p then (n - p) + p else p - p) < suc n
go n p h = ground (arith, h)

unseen : (p i : ℕ) → (if leb p p then leb p i && ltb i p else (leb p i || ltb i p)) ≡ false
unseen p i = ground arith

module _ {n : ℕ} {f g : ℕ → Bool} {this other : Bitset} (h : Holds n f this)
    (k : Holds n g other) where
  module _ (start b : ℕ) (later : 64 ≤ start) (low : start < n) where
    -- From a position in the second word or later, the call returns, and at least `b` bits have gone
    -- over unless none is left; a bit of the other bitset has gone over or stays.
    pub transfer-IsTransferred :
        (r : Transferred) × (transfer_approximate_unsafe (suc this.arrlen) other start b this
          ≡ ok (some r))
        × IsTransferred n f g b r
    unfolding transfer_approximate_unsafe
    transfer-IsTransferred =
        let inside : start / 64 < this.arrlen =
          subst (λ t. start / 64 < t) (sym (words_this h k)) (words_enough n start low) in
        let first : leb this.arrlen (start / 64) ≡ false = ground (arith, inside) in
        let has_words : (this.arrlen == 0) ≡ false = ground (arith, inside) in
        let (m, returned, done) =
          loop-Ends this.array other.array this.arrlen b (start / 64) (omega (arith, later)) inside
            (suc this.arrlen)
            record { at = start / 64; transferred = 0; mine = this.array; theirs = other.array }
            inside (go this.arrlen (start / 64) inside) (start-IsMoved h k)
            (λ i lt v. ground (arith, sym v ∙ unseen (start / 64) i)) in
        (
          from_loop this other m,
          rw (same_len h k, same_arrlen h k, has_words, first, returned) refl,
          record {
            remain = other-Holds h k m done.moved;
            gained = this-Holds h k m done.moved;
            from_g = λ j lt e.
                sym (below_n j n (g j) lt)
                ∙ (digit_moved h k m done.moved j (omega (arith, words_cover n, lt))).0 e;
            counted = counted_lem h k m done.moved;
            enough = elim done.enough [
              | inl e ↦ inl e
              | inr e ↦ inr (λ j lt.
                  rw
                    (e (j / 64)
                      (subst (λ t. j / 64 < t) (sym (words_this h k)) (words_enough n j lt)))
                    (bit-zero (j % 64)))
            ];
          },
        )

  -- From a position in the first word of a bitset that has bits, the call runs out of any fuel if the
  -- other bitset has fewer than `b` bits that are set.
  pub transfer_never :
      (start b : ℕ)
      → start < 64
      → 0 < n
      → count g n < b
      → (fuel : ℕ) → transfer_approximate_unsafe fuel other start b this ≡ ok none
  unfolding transfer_approximate_unsafe
  transfer_never start b first some_bits few fuel =
      let word : start / 64 ≡ 0 = omega (arith, first) in
      let inside : 0 < this.arrlen =
        subst (λ t. 0 < t) (sym (words_this h k)) (words_enough n 0 some_bits) in
      let has_words : (this.arrlen == 0) ≡ false = ground (arith, inside) in
      let at_0 : leb this.arrlen 0 ≡ false = ground (arith, inside) in
      let total : ones_of other.array this.arrlen < b = few_ones h k few in
      rw
        (
          same_len h k,
          same_arrlen h k,
          has_words,
          word,
          at_0,
          loop_stuck this.array other.array this.arrlen b total fuel _ inside (start-IsMoved h k),
        )
        refl
