-- ===== src/DenseBitset/Transfer/Moved.antt =====
-- What the words that `transfer_approximate_unsafe` has moved are as sets.
use graphlabapi_graphlab.Prelude.{
  ℕ, ◌+◌, ◌*◌, ◌/◌, ◌%◌, ◌≤◌, ◌<◌, ◌≡◌, refl, sym, subst, ap, ◌∙◌, arith, ltb, ◌==◌, lt→ltb, ==_iff,
  Bool, true, false, not, ◌&&◌, ◌||◌, inl, inr,
}
use graphlabapi_graphlab.Prelude.Bits.{bit, bit-zero, bit-bit_or, bit_or-lt}
use graphlabapi_graphlab.DenseBitset.{Bitset, words}
use graphlabapi_graphlab.DenseBitset.Members.{Holds, digit, digit-member, words_cover}
use graphlabapi_graphlab.DenseBitset.Search.{popcount, ones_of}
use graphlabapi_graphlab.DenseBitset.Search.Count.{count, popcount-count}
use graphlabapi_graphlab.DenseBitset.Algebra.Trim.{loose-Holds}
use graphlabapi_graphlab.DenseBitset.Transfer.{Moving}
use graphlabapi_graphlab.DenseBitset.Transfer.Round.{IsMoved}

-- One bit `x` of this and `y` of the other that stays, and one that goes over.
stayed : (x y : Bool) → (y ≡ true → y ≡ true) × (x ≡ x || y && not y)
stayed true true = (λ e. e, refl)
stayed true false = (λ e. e, refl)
stayed false true = (λ e. e, refl)
stayed false false = (λ e. e, refl)

went : (x y : Bool) → (false ≡ true → y ≡ true) × (x || y ≡ x || y && not false)
went x true = (λ e. refl, refl)
went x false = (λ e. ground (arith, e), refl)

pub below_n : (j n : ℕ) (x : Bool) → j < n → (ltb j n && x) ≡ x
below_n j n x lt = rw (lt→ltb j n lt) refl

pub past_n : (j n : ℕ) (x : Bool) → n ≤ j → (ltb j n && x) ≡ false
past_n j n x le = let out : ltb j n ≡ false = ground arith in rw out refl

to_false : (x : Bool) → (x ≡ true → false ≡ true) → x ≡ false
to_false true h = sym (h refl)
to_false false h = refl

module _ {n : ℕ} {f g : ℕ → Bool} {this other : Bitset} (h : Holds n f this)
    (k : Holds n g other) where
  pub words_this : this.arrlen ≡ words n
  words_this = h.valid.sized ∙ ap words h.long

  pub words_other : other.arrlen ≡ words n
  words_other = k.valid.sized ∙ ap words k.long

  pub same_len : (other.len == this.len) ≡ true
  same_len = (==_iff other.len this.len).1 (k.long ∙ sym h.long)

  pub same_arrlen : (other.arrlen == this.arrlen) ≡ true
  same_arrlen = (==_iff other.arrlen this.arrlen).1 (words_other ∙ sym words_this)

  pub start-IsMoved :
      {p : ℕ}
      → IsMoved this.array other.array this.arrlen
          record { at = p; transferred = 0; mine = this.array; theirs = other.array }
  start-IsMoved = record { each_word = λ i lt. inl (refl, refl); total = omega arith }

  module _ (m : Moving) (w : IsMoved this.array other.array this.arrlen m) where
    -- one digit of a word that stayed or went
    pub digit_moved :
        (j : ℕ)
        → j < 64 * words n
        → (bit (j % 64) (m.theirs (j / 64)) ≡ true → (ltb j n && g j) ≡ true)
          × (bit (j % 64) (m.mine (j / 64))
              ≡ (ltb j n && f j) || (ltb j n && g j) && not (bit (j % 64) (m.theirs (j / 64))))
    digit_moved j lt =
        let at_this = digit-member h j (omega (arith, lt, words_this)) in
        let at_other = digit-member k j (omega (arith, lt, words_other)) in
        elim (w.each_word (j / 64) (omega (arith, lt, words_this))) [
          | inl (t, o) ↦ rw (t, o, at_this, at_other) (stayed (ltb j n && f j) (ltb j n && g j))
          | inr (t, o) ↦
              rw
                (
                  t,
                  o,
                  bit-zero (j % 64),
                  bit-bit_or (j % 64) (this.array (j / 64)) (other.array (j / 64)),
                  at_this,
                  at_other,
                )
                (went (ltb j n && f j) (ltb j n && g j))
        ]

    theirs_fit : (i : ℕ) → i < words n → m.theirs i < 18446744073709551616
    theirs_fit i lt = elim (w.each_word i (omega (arith, lt, words_this))) [
      | inl (t, o) ↦ rw o (k.valid.fits i (omega (arith, lt, words_other)))
      | inr (t, o) ↦ rw o (omega arith)
    ]

    mine_fit : (i : ℕ) → i < words n → m.mine i < 18446744073709551616
    mine_fit i lt =
        let fit = h.valid.fits i (omega (arith, lt, words_this)) in
        elim (w.each_word i (omega (arith, lt, words_this))) [
          | inl (t, o) ↦ rw t fit
          | inr (t, o) ↦ rw t (
              bit_or-lt 64 (this.array i) (other.array i) fit
                (k.valid.fits i (omega (arith, lt, words_other))))
        ]

    pub other-Holds :
        Holds n (digit (record other { array = m.theirs })) (record other { array = m.theirs })
    other-Holds =
        let past : (j : ℕ) → n ≤ j → j < 64 * words n → bit (j % 64) (m.theirs (j / 64)) ≡ false =
          λ j le lt. to_false _ (λ e. sym (past_n j n (g j) le) ∙ (digit_moved j lt).0 e) in
        loose-Holds
          record {
            long = k.long;
            sized = words_other;
            fits = λ i lt. theirs_fit i lt;
            members = λ j lt. refl;
          }
          past

    pub counted_lem :
        m.transferred + count (digit (record other { array = m.theirs })) n ≡ count g n
    unfolding popcount
    counted_lem =
        let before : ones_of other.array other.arrlen ≡ count g n = popcount-count k in
        let after : ones_of m.theirs other.arrlen
            ≡ count (digit (record other { array = m.theirs })) n =
          popcount-count other-Holds in
        let same : other.arrlen ≡ this.arrlen = words_other ∙ sym words_this in
        let total =
          subst (λ t. m.transferred + ones_of m.theirs t ≡ ones_of other.array t) (sym same)
            w.total in
        rw (sym before, sym after) total

    pub this-Holds :
        Holds n
          (λ j. f j || g j && not (digit (record other { array = m.theirs }) j))
          (record this { array = m.mine })
    this-Holds =
        let at : (j : ℕ)
            → j < 64 * words n
            → bit (j % 64) (m.mine (j / 64))
              ≡ (ltb j n && f j) || (ltb j n && g j) && not (bit (j % 64) (m.theirs (j / 64))) =
          λ j lt. (digit_moved j lt).1 in
        loose-Holds
          record {
            long = h.long;
            sized = words_this;
            fits = λ i lt. mine_fit i lt;
            members = λ j lt. at j (omega (arith, words_cover n, lt)) ∙ rw (lt→ltb j n lt) refl;
          }
          (λ j le lt. at j lt ∙ rw (past_n j n (f j) le, past_n j n (g j) le) refl)

  pub few_ones : {b : ℕ} → count g n < b → ones_of other.array this.arrlen < b
  unfolding popcount
  few_ones {b} few =
      let before : ones_of other.array other.arrlen ≡ count g n = popcount-count k in
      subst (λ t. ones_of other.array t < b) (words_other ∙ sym words_this) (rw before few)
