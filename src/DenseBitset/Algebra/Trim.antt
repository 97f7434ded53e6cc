-- ===== src/DenseBitset/Algebra/Trim.antt =====
-- `fix_trailing_bits` of `dense_bitset`, on a bitset whose last word may hold too much.
use Prim.Native.Nat.{bit_and}
use graphlabapi_graphlab.Prelude.{
  ℕ, suc, ◌-◌, ◌*◌, ◌/◌, ◌%◌, ◌^◌, ◌≤◌, ◌<◌, ◌≡◌, ◌≢◌, refl, sym, subst, ap, ◌∙◌, arith, ltb, ◌==◌,
  lt→ltb, Bool, true, false, ◌&&◌, eq_cases, inl, inr, if_split, ==_iff,
}
use graphlabapi_graphlab.Prelude.Updates.{update_cases}
use graphlabapi_graphlab.Prelude.Bits.{bit, bit-ones, bit-bit_and, bit_and-le}
use graphlabapi_graphlab.DenseBitset.{Bitset, words, fix_trailing_bits, one_shl, write}
use graphlabapi_graphlab.DenseBitset.Members.{Holds, digit, digit-write, one_shl_small, words_cover}

-- The bits below the length are those of `f`; the bits behind it may be anything.
pub record IsLoose (n : ℕ) (f : ℕ → Bool) (s : Bitset) : Type 0 where
  pub long : s.len ≡ n
  pub sized : s.arrlen ≡ words n
  pub fits : (i : ℕ) → i < words n → s.array i < 18446744073709551616
  pub members : (j : ℕ) → j < n → digit s j ≡ f j

pub loose-Holds :
    {n : ℕ} {f : ℕ → Bool} {s : Bitset}
    → IsLoose n f s
    → ((j : ℕ) → n ≤ j → j < 64 * words n → digit s j ≡ false)
    → Holds n f s
loose-Holds {n} {f} {s} l past = record {
  valid = record {
    sized = l.sized ∙ ap words (sym l.long);
    fits = λ i lt. l.fits i (subst (λ t. i < t) l.sized lt);
    trimmed = λ j le lt. past j (subst (λ t. t ≤ j) l.long le) (subst (λ t. j < 64 * t) l.sized lt);
  };
  long = l.long;
  members = l.members;
}

-- The last word is cut off behind the length.
words_last : (n : ℕ) → n % 64 ≢ 0 → (words n ≡ suc (n / 64))
unfolding words
words_last n h = ground (arith, h)

words_exact : (n : ℕ) → n % 64 ≡ 0 → 64 * words n ≡ n
unfolding words
words_exact n h = ground (arith, h)

cut_bits : (n w k : ℕ) → bit k (bit_and w (one_shl (n % 64) - 1)) ≡ bit k w && ltb k (n % 64)
cut_bits n w k = rw (one_shl_small n, bit-bit_and k w (2 ^ (n % 64) - 1), bit-ones (n % 64) k) refl

and_true : (a b : Bool) → b ≡ true → a && b ≡ a
and_true true b h = h
and_true false b h = refl

and_false : (a b : Bool) → b ≡ false → a && b ≡ false
and_false true b h = h
and_false false b h = refl

abbrev cut : ℕ → Bitset → Bitset
cut n s = write (n / 64) (bit_and (s.array (n / 64)) (one_shl (n % 64) - 1)) s

digit-cut :
    (n : ℕ) (s : Bitset) (j : ℕ)
    → n % 64 ≢ 0
    → j < 64 * words n
    → digit (cut n s) j ≡ digit s j && ltb j n
digit-cut n s j h lt = elim (eq_cases (n / 64) (j / 64)) [
  | inl e ↦
      let hit : (n / 64 == j / 64) ≡ true = (==_iff (n / 64) (j / 64)).1 e in
      let low : ltb (j % 64) (n % 64) ≡ ltb j n = ground (arith, e) in
      rw
        (
          digit-write s (n / 64) (bit_and (s.array (n / 64)) (one_shl (n % 64) - 1)) j,
          hit,
          cut_bits n (s.array (n / 64)) (j % 64),
          low,
        )
        (ap (λ i. bit (j % 64) (s.array i) && ltb j n) e)
  | inr d ↦
      let miss : (n / 64 == j / 64) ≡ false = ground (arith, d) in
      let low : ltb j n ≡ true = ground (arith, d, lt, words_last n h) in
      rw (digit-write s (n / 64) (bit_and (s.array (n / 64)) (one_shl (n % 64) - 1)) j, miss)
        (sym (and_true (digit s j) (ltb j n) low))
]

cut-Holds : {n : ℕ} {f : ℕ → Bool} {s : Bitset} → IsLoose n f s → n % 64 ≢ 0 → Holds n f (cut n s)
cut-Holds {n} {f} {s} l h =
    loose-Holds
      record {
        long = l.long;
        sized = l.sized;
        fits =
            update_cases (λ i x. i < words n → x < 18446744073709551616) s.array (n / 64) _
              (λ lt.
                omega
                  (arith, bit_and-le (s.array (n / 64)) (one_shl (n % 64) - 1), l.fits (n / 64) lt))
              (λ i _ lt. l.fits i lt);
        members = λ j lt.
            digit-cut n s j h (omega (arith, words_cover n, lt))
            ∙ and_true _ _ (lt→ltb j n lt)
            ∙ l.members j lt;
      }
      (λ j past lt. digit-cut n s j h lt ∙ and_false (digit s j) (ltb j n) (ground (arith, past)))

pub fix_trailing_bits-Holds :
    {n : ℕ} {f : ℕ → Bool} {s : Bitset} → IsLoose n f s → Holds n f (fix_trailing_bits s)
unfolding fix_trailing_bits
fix_trailing_bits-Holds {n} {f} {s} l =
    if_split (λ t. Holds n f t) (s.len % 64 == 0)
      (λ e. loose-Holds l (λ j past lt.
        absurd
          (omega (arith, words_exact n (rw (sym l.long) ((==_iff (s.len % 64) 0).0 e)), past, lt))))
      (λ e.
        let some_left : n % 64 ≢ 0 = λ z. ground (arith, e, z, l.long) in
        let last : s.arrlen - 1 ≡ n / 64 = omega (arith, l.sized, words_last n some_left) in
        let cut_at : ℕ → ℕ → Bitset =
          λ i m. write i (bit_and (s.array i) (one_shl (m % 64) - 1)) s in
        subst (λ i. Holds n f (cut_at i s.len)) (sym last)
          (subst (λ m. Holds n f (cut_at (n / 64) m)) (sym l.long) (cut-Holds l some_left)))
