-- ===== src/DenseBitset/Algebra/Whole.antt =====
-- What the operations on a whole bitset make of its set: fill, clear, invert, resize and copies.
use graphlabapi_graphlab.Prelude.{
  ℕ, ◌*◌, ◌/◌, ◌%◌, ◌<◌, ◌≡◌, refl, sym, subst, ap, ◌∙◌, arith, ltb, ◌==◌, lt→ltb, ltb→lt,
  if◌then◌else◌, Bool, true, false, not, ◌&&◌, lt_or_le, inl, inr, if_split,
}
use graphlabapi_graphlab.Prelude.Bits.{bit, bit-zero, bit-ones}
use graphlabapi_graphlab.DenseBitset.{
  Bitset, words, complement, fix_trailing_bits, each, size_max, fill, clear, resize, new, assign,
  new_empty, copy,
}
use graphlabapi_graphlab.DenseBitset.Members.{
  Holds, inside, word_fits, words_enough, digit, digit-member, for_each-eq, bit-complement_word,
  complement-fits, words_cover,
}
use graphlabapi_graphlab.DenseBitset.Search.Next.{digits}
use graphlabapi_graphlab.DenseBitset.Algebra.{invert}
use graphlabapi_graphlab.DenseBitset.Algebra.Trim.{IsLoose, loose-Holds, fix_trailing_bits-Holds}

-- Every word is written by the same rule.
pub each-eq :
    (g : ℕ → ℕ → ℕ) (s : Bitset) (i : ℕ) → i < s.arrlen → (each g s).array i ≡ g i (s.array i)
each-eq g s i lt = for_each-eq g s.arrlen s.array i ∙ (rw (lt→ltb i s.arrlen lt) refl)

pub each-IsLoose :
    {n : ℕ} {f : ℕ → Bool} {s : Bitset} (g : ℕ → ℕ → ℕ)
    → Holds n f s
    → ((i : ℕ) → g i (s.array i) < 18446744073709551616)
    → (h : ℕ → Bool) → ((j : ℕ) → j < n → bit (j % 64) (g (j / 64) (s.array (j / 64))) ≡ h j)
    → IsLoose n h (each g s)
each-IsLoose {n} {f} {s} g held small h bits =
    let sized : s.arrlen ≡ words n = held.valid.sized ∙ ap words held.long in
    let at : (i : ℕ) → i < words n → (each g s).array i ≡ g i (s.array i) =
      λ i lt. each-eq g s i (subst (λ t. i < t) (sym sized) lt) in
    record {
      long = held.long;
      sized = sized;
      fits = λ i lt. rw (at i lt) (small i);
      members = λ j lt. rw (at (j / 64) (words_enough n j lt)) (bits j lt);
    }

-- fill makes the set of all positions below the length, clear the empty set, invert the complement.
pub clear-Holds :
    {n : ℕ} (s : Bitset) → s.len ≡ n → s.arrlen ≡ words n → Holds n (λ _. false) (clear s)
unfolding clear
clear-Holds {n} s long sized =
    let none : (i : ℕ) → i < words n → (clear s).array i ≡ 0 =
      λ i lt. each-eq (λ _ _. 0) s i (subst (λ t. i < t) (sym sized) lt) in
    let zeros : (j : ℕ) → j < 64 * words n → digit (clear s) j ≡ false =
      λ j lt. rw (none (j / 64) (omega (arith, lt))) (bit-zero (j % 64)) in
    loose-Holds
      record {
        long = long;
        sized = sized;
        fits = λ i lt. rw (none i lt) (omega arith);
        members = λ j lt. zeros j (omega (arith, words_cover n, lt));
      }
      (λ j _ lt. zeros j lt)

pub fill-Holds : {n : ℕ} {f : ℕ → Bool} {s : Bitset} → Holds n f s → Holds n (λ _. true) (fill s)
unfolding fill
fill-Holds {n} {f} {s} h = fix_trailing_bits-Holds (
    each-IsLoose (λ _ _. size_max) h (λ i. omega arith) (λ _. true)
      (λ j lt. bit-ones 64 (j % 64) ∙ lt→ltb (j % 64) 64 (omega arith)))

pub invert-Holds :
    {n : ℕ} {f : ℕ → Bool} {s : Bitset} → Holds n f s → Holds n (λ j. not (f j)) (invert s)
unfolding invert
invert-Holds {n} {f} {s} h = fix_trailing_bits-Holds (
    each-IsLoose (λ _ w. complement w) h (λ i. complement-fits (s.array i)) (λ j. not (f j))
      (λ j lt.
        bit-complement_word (s.array (j / 64)) (j % 64) (omega arith) (word_fits h j lt)
        ∙ ap not (h.members j lt)))

-- resize keeps the bits of the words that it keeps; the bits of new words are as they are found.
pub resize-Holds :
    {n : ℕ} {f : ℕ → Bool} {s : Bitset}
    → Holds n f s
    → (fresh : ℕ → ℕ) → ((i : ℕ) → fresh i < 18446744073709551616)
    → (m : ℕ)
    → Holds m
        (λ j. if ltb j (64 * words n) then ltb j n && f j else digits fresh j)
        (resize fresh m s)
unfolding resize
resize-Holds {n} {f} {s} h fresh small m =
    let sized : s.arrlen ≡ words n = h.valid.sized ∙ ap words h.long in
    fix_trailing_bits-Holds record {
      long = refl;
      sized = refl;
      fits = λ i _.
          if_split (λ x. x < 18446744073709551616) (ltb i s.arrlen)
            (λ e. h.valid.fits i (ltb→lt i s.arrlen e)) (λ _. small i);
      members = λ j _. elim (lt_or_le (j / 64) s.arrlen) [
        | inl e ↦
            let kept : ltb j (64 * words n) ≡ true = lt→ltb _ _ (omega (arith, e, sized)) in
            rw (lt→ltb (j / 64) s.arrlen e, kept) (digit-member h j (omega (arith, e)))
        | inr e ↦
            let added : ltb (j / 64) s.arrlen ≡ false = ground (arith, e) in
            let past : ltb j (64 * words n) ≡ false = ground (arith, e, sized) in
            rw (added, past) refl
      ];
    }

fix-len : (s : Bitset) → (fix_trailing_bits s).len ≡ s.len
unfolding fix_trailing_bits
fix-len s = if_split (λ (t : Bitset). t.len ≡ s.len) (s.len % 64 == 0) (λ _. refl) (λ _. refl)

fix-arrlen : (s : Bitset) → (fix_trailing_bits s).arrlen ≡ s.arrlen
unfolding fix_trailing_bits
fix-arrlen s =
    if_split (λ (t : Bitset). t.arrlen ≡ s.arrlen) (s.len % 64 == 0) (λ _. refl) (λ _. refl)

resize-len : (fresh : ℕ → ℕ) (n : ℕ) (s : Bitset) → (resize fresh n s).len ≡ n
unfolding resize
resize-len fresh n s = fix-len _

resize-arrlen : (fresh : ℕ → ℕ) (n : ℕ) (s : Bitset) → (resize fresh n s).arrlen ≡ words n
unfolding resize
resize-arrlen fresh n s = fix-arrlen _

pub new-Holds : (fresh : ℕ → ℕ) (n : ℕ) → Holds n (λ _. false) (new fresh n)
unfolding new
new-Holds fresh n =
    clear-Holds (resize fresh n (record new_empty { len = n })) (resize-len fresh n _)
      (resize-arrlen fresh n _)

pub assign-Holds :
    {n : ℕ} {f : ℕ → Bool} {db : Bitset}
    → Holds n f db
    → (fresh : ℕ → ℕ) (s : Bitset) → Holds n f (assign fresh db s)
unfolding assign
assign-Holds {n} {f} {db} h fresh s =
    let same : (i : ℕ) → i < db.arrlen → (assign fresh db s).array i ≡ db.array i =
      λ i lt. rw (lt→ltb i db.arrlen lt) refl in
    record {
      valid = record {
        sized = h.valid.sized;
        fits = λ i lt. rw (same i lt) (h.valid.fits i lt);
        trimmed = λ j past lt. rw (same (j / 64) (omega (arith, lt))) (h.valid.trimmed j past lt);
      };
      long = h.long;
      members = λ j lt. rw (same (j / 64) (inside h j lt)) (h.members j lt);
    }

-- On a consistent bitset for a set, clear leaves the empty set, fill all positions below the length,
-- invert the complement, a copy the same set; resize keeps the members among the words that it keeps,
-- and takes the bits of new words, which have 64 bits, as it finds them.
pub whole_lem :
    {n : ℕ} {f : ℕ → Bool} {s : Bitset}
    → Holds n f s
    → (fresh : ℕ → ℕ) → ((i : ℕ) → fresh i < 18446744073709551616)
    → (m : ℕ)
    → Holds n (λ _. false) (clear s)
      × Holds n (λ _. true) (fill s)
      × Holds n (λ j. not (f j)) (invert s)
      × Holds n f (copy fresh s)
      × Holds m
          (λ j. if ltb j (64 * words n) then ltb j n && f j else digits fresh j)
          (resize fresh m s)
unfolding copy
whole_lem {n} {f} {s} h fresh small m = (
  clear-Holds s h.long (h.valid.sized ∙ ap words h.long),
  fill-Holds h,
  invert-Holds h,
  assign-Holds h fresh new_empty,
  resize-Holds h fresh small m,
)
