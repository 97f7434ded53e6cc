-- ===== src/DenseBitset/Algebra/Pointwise.antt =====
-- The operators of `dense_bitset`, and those of sets position by position.
use Prim.Native.Nat.{bit_and, bit_or}
use graphlabapi_graphlab.Prelude.{
  ℕ, ◌-◌, ◌*◌, ◌/◌, ◌%◌, ◌<◌, ◌≡◌, refl, sym, subst, ap, ◌∙◌, arith, ltb, ◌==◌, lt→ltb, Bool, true,
  false, not, ◌&&◌, ◌||◌, ==_iff,
}
use graphlabapi_graphlab.Prelude.Run.{Run, ok}
use graphlabapi_graphlab.Prelude.Bits.{
  bit, bit-bit_and, bit-bit_or, bit-diff, bit_and-le, bit_or-lt,
}
use graphlabapi_graphlab.DenseBitset.{Bitset, words, new, each}
use graphlabapi_graphlab.DenseBitset.Members.{Holds, digit, digit-member, for_each-eq, words_cover}
use graphlabapi_graphlab.DenseBitset.Algebra.{
  combined, and_with, or_with, minus, and_assign, or_assign, minus_assign,
}
use graphlabapi_graphlab.DenseBitset.Algebra.Trim.{loose-Holds}
use graphlabapi_graphlab.DenseBitset.Algebra.Whole.{new-Holds, each-eq}

-- An operation on words that works digit by digit and keeps zeros.
record IsDigitwise (op : ℕ → ℕ → ℕ) (on : Bool → Bool → Bool) : Type 0 where
  pub bits : (k a b : ℕ) → bit k (op a b) ≡ on (bit k a) (bit k b)
  pub zeros : on false false ≡ false
  pub small :
      (a b : ℕ)
      → a < 18446744073709551616
      → b < 18446744073709551616
      → op a b < 18446744073709551616

abbrev difference : ℕ → ℕ → ℕ
difference a b = a - bit_and a b

intersection : IsDigitwise bit_and (λ x y. x && y)
intersection = record {
  bits = bit-bit_and;
  zeros = refl;
  small = λ a b la lb. omega (arith, la, bit_and-le a b);
}

union : IsDigitwise bit_or (λ x y. x || y)
union = record { bits = bit-bit_or; zeros = refl; small = bit_or-lt 64 }

without : IsDigitwise difference (λ x y. x && not y)
without = record { bits = bit-diff; zeros = refl; small = λ a b la lb. omega (arith, la) }

-- A call that returns a bitset with `n` bits, the digits of `f`.
abbrev pub Returns : ℕ → (ℕ → Bool) → Run Bitset → Type 0
Returns n f m = (t : Bitset) × (m ≡ ok t) × Holds n f t

module _ {n : ℕ} {f g : ℕ → Bool} {s other : Bitset} (h : Holds n f s) (k : Holds n g other) where
  sizes : (s.len == other.len) ≡ true
  sizes = (==_iff s.len other.len).1 (h.long ∙ sym k.long)

  words_s : s.arrlen ≡ words n
  words_s = h.valid.sized ∙ ap words h.long

  words_other : other.arrlen ≡ words n
  words_other = k.valid.sized ∙ ap words k.long

  module _ (op : ℕ → ℕ → ℕ) (on : Bool → Bool → Bool) (d : IsDigitwise op on) where
    -- A bitset with these words holds the set that the operation makes.
    words-Holds :
        (t : Bitset)
        → t.len ≡ n
        → t.arrlen ≡ words n
        → ((i : ℕ) → i < words n → t.array i ≡ op (s.array i) (other.array i))
        → Holds n (λ j. on (f j) (g j)) t
    words-Holds t long sized same =
        let in_s : (i : ℕ) → i < words n → i < s.arrlen =
          λ i lt. subst (λ x. i < x) (sym words_s) lt in
        let in_other : (i : ℕ) → i < words n → i < other.arrlen =
          λ i lt. subst (λ x. i < x) (sym words_other) lt in
        let at : (j : ℕ) → j < 64 * words n → digit t j ≡ on (ltb j n && f j) (ltb j n && g j) =
          λ j lt.
            rw
              (
                same (j / 64) (omega (arith, lt)),
                d.bits (j % 64) (s.array (j / 64)) (other.array (j / 64)),
                digit-member h j (omega (arith, lt, words_s)),
                digit-member k j (omega (arith, lt, words_other)),
              )
              refl in
        loose-Holds
          record {
            long = long;
            sized = sized;
            fits = λ i lt.
                rw (same i lt)
                  (d.small _ _ (h.valid.fits i (in_s i lt)) (k.valid.fits i (in_other i lt)));
            members = λ j lt. at j (omega (arith, words_cover n, lt)) ∙ rw (lt→ltb j n lt) refl;
          }
          (λ j past lt.
            let out : ltb j n ≡ false = ground (arith, past) in at j lt ∙ rw out d.zeros)

    combined-Holds : (fresh : ℕ → ℕ) → Holds n (λ j. on (f j) (g j)) (combined op fresh other s)
    combined-Holds fresh =
        let made = new-Holds fresh s.len in
        words-Holds (combined op fresh other s) (made.long ∙ h.long)
          (made.valid.sized ∙ ap words (made.long ∙ h.long))
          (λ i lt.
            for_each-eq (λ i w. op (s.array i) (other.array i)) s.arrlen (new fresh s.len).array i
            ∙ rw (lt→ltb i s.arrlen (subst (λ x. i < x) (sym words_s) lt)) refl)

    each-Holds : Holds n (λ j. on (f j) (g j)) (each (λ i w. op w (other.array i)) s)
    each-Holds =
        words-Holds (each (λ i w. op w (other.array i)) s) h.long words_s
          (λ i lt. each-eq (λ i w. op w (other.array i)) s i (subst (λ x. i < x) (sym words_s) lt))

  -- On two consistent bitsets of one length, the operators return the intersection, the union and
  -- the difference of the two sets, whether the result is new or in place.
  pub operators_lem :
      (fresh : ℕ → ℕ)
      → Returns n (λ j. f j && g j) (and_with fresh other s)
        × Returns n (λ j. f j || g j) (or_with fresh other s)
        × Returns n (λ j. f j && not (g j)) (minus fresh other s)
        × Returns n (λ j. f j && g j) (and_assign other s)
        × Returns n (λ j. f j || g j) (or_assign other s)
        × Returns n (λ j. f j && not (g j)) (minus_assign other s)
  unfolding and_with or_with minus and_assign or_assign minus_assign
  operators_lem fresh = (
    (combined bit_and fresh other s, rw sizes refl, combined-Holds _ _ intersection fresh),
    (combined bit_or fresh other s, rw sizes refl, combined-Holds _ _ union fresh),
    (combined difference fresh other s, rw sizes refl, combined-Holds _ _ without fresh),
    (each (λ i w. bit_and w (other.array i)) s, rw sizes refl, each-Holds _ _ intersection),
    (each (λ i w. bit_or w (other.array i)) s, rw sizes refl, each-Holds _ _ union),
    (each (λ i w. difference w (other.array i)) s, rw sizes refl, each-Holds _ _ without),
  )
