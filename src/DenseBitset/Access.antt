-- ===== src/DenseBitset/Access.antt =====
-- Reading and writing one bit of a `dense_bitset`, and a set at one position.
use Prim.Native.Nat.{bit_and, bit_or, bit_xor}
use graphlabapi_graphlab.Prelude.{
  ℕ, ◌^◌, ◌%◌, ◌/◌, ◌<◌, ◌≡◌, refl, sym, subst, ap, arith, ◌==◌, if◌then◌else◌, Bool, true, false,
  not, ◌∙◌, ==_iff,
}
use graphlabapi_graphlab.Prelude.Run.{Run, ok}
use graphlabapi_graphlab.Prelude.Updates.{update}
use graphlabapi_graphlab.Prelude.Bits.{
  bit, xor, bit-pow, bit_and-63, bit_and-le, bit_or-lt, bit_xor-lt, bit-bit_and, bit-bit_or,
  bit-bit_xor,
}
use graphlabapi_graphlab.DenseBitset.{
  Bitset, meets, mask_of, write, get, set_bit, xor_bit, clear_bit, set_bit_unsync, clear_bit_unsync,
  one_shl, set_to, set_unsync, complement,
}
use graphlabapi_graphlab.DenseBitset.Members.{
  Holds, word_fits, word_at, write-Holds, one_shl_small, meets-bit, bit-complement_word,
}

-- A call that answers `old` and leaves a bitset with `n` bits that are the digits of `f`.
pub record Answers (n : ℕ) (old : Bool) (f : ℕ → Bool) (m : Run (Bool × Bitset)) : Type 0 where
  pub state : Bitset
  pub returned : m ≡ ok (old, state)
  pub held : Holds n f state

mask-eq : (b : ℕ) → mask_of b ≡ 2 ^ (b % 64)
mask-eq b = rw (bit_and-63 b) (one_shl_small b)

mask-fits : (b : ℕ) → mask_of b < 18446744073709551616
unfolding one_shl
mask-fits b = omega arith

bit-mask : (b k : ℕ) → bit k (mask_of b) ≡ (k == b % 64)
bit-mask b k = rw (mask-eq b) (bit-pow (b % 64) k)

-- The three changes of a word at the position of `b`.
bit-set : (w b k : ℕ) → bit k (bit_or w (mask_of b)) ≡ (if k == b % 64 then true else bit k w)
bit-set w b k = rw (bit-bit_or k w (mask_of b), bit-mask b k) (ground arith)

bit-clear :
    (w b k : ℕ)
    → k < 64
    → bit k (bit_and w (complement (mask_of b))) ≡ (if k == b % 64 then false else bit k w)
bit-clear w b k h =
    rw
      (
        bit-bit_and k w (complement (mask_of b)),
        bit-complement_word (mask_of b) k h (mask-fits b),
        bit-mask b k,
      )
      (ground arith)

flip_cases : (x t y : Bool) → (t ≡ true → x ≡ y) → xor x t ≡ (if t then not y else x)
flip_cases true true y h = rw (sym (h refl)) refl
flip_cases true false y h = refl
flip_cases false true y h = rw (sym (h refl)) refl
flip_cases false false y h = refl

bit-flip :
    (w b k : ℕ)
    → bit k (bit_xor w (mask_of b)) ≡ (if k == b % 64 then not (bit (b % 64) w) else bit k w)
bit-flip w b k =
    rw (bit-bit_xor k w (mask_of b), bit-mask b k)
      (flip_cases (bit k w) (k == b % 64) (bit (b % 64) w)
        (λ e. ap (λ i. bit i w) ((==_iff k (b % 64)).0 e)))

module _ {n : ℕ} {f : ℕ → Bool} {s : Bitset} (h : Holds n f s) (b : ℕ) (low : b < n) where
  -- Each position below the length reads as the set says.
  pub get-member : get b s ≡ ok (f b)
  unfolding get
  get-member = rw (word_at h b low) (ap ok (meets-bit (s.array (b / 64)) b ∙ h.members b low))

  old_bit : meets (s.array (b / 64)) (mask_of b) ≡ f b
  old_bit = meets-bit (s.array (b / 64)) b ∙ h.members b low

  get_ok : get b s ≡ ok (f b)
  get_ok = get-member

  -- Setting answers whether the position was in the set, and adds it.
  pub set_bit-Answers : Answers n (f b) (update f b true) (set_bit b s)
  unfolding set_bit
  set_bit-Answers = record {
    state = write (b / 64) (bit_or (s.array (b / 64)) (mask_of b)) s;
    returned = rw (word_at h b low, old_bit) refl;
    held =
        write-Holds h b low true _ (bit_or-lt 64 _ _ (word_fits h b low) (mask-fits b))
          (λ k _. bit-set _ b k);
  }

  pub clear_bit-Answers : Answers n (f b) (update f b false) (clear_bit b s)
  unfolding clear_bit
  clear_bit-Answers =
      let w = s.array (b / 64) in
      record {
        state = write (b / 64) (bit_and w (complement (mask_of b))) s;
        returned = rw (word_at h b low, old_bit) refl;
        held =
            write-Holds h b low false _
              (omega (arith, bit_and-le w (complement (mask_of b)), word_fits h b low))
              (λ k small. bit-clear _ b k small);
      }

  pub xor_bit-Answers : Answers n (f b) (update f b (not (f b))) (xor_bit b s)
  unfolding xor_bit
  xor_bit-Answers =
      let w = s.array (b / 64) in
      record {
        state = write (b / 64) (bit_xor w (mask_of b)) s;
        returned = rw (word_at h b low, old_bit) refl;
        held =
            write-Holds h b low (not (f b)) _ (bit_xor-lt 64 _ _ (word_fits h b low) (mask-fits b))
              (λ k _.
                subst
                  (λ v. bit k (bit_xor w (mask_of b)) ≡ (if k == b % 64 then not v else bit k w))
                  (h.members b low) (bit-flip w b k));
      }

  -- The variants without the atomic step do the same.
  set_bit_unsync-eq : set_bit_unsync b s ≡ set_bit b s
  unfolding set_bit_unsync set_bit
  set_bit_unsync-eq = rw (get_ok, word_at h b low, old_bit) refl

  clear_bit_unsync-eq : clear_bit_unsync b s ≡ clear_bit b s
  unfolding clear_bit_unsync clear_bit
  clear_bit_unsync-eq = rw (get_ok, word_at h b low, old_bit) refl

  pub set_to-Answers : (v : Bool) → Answers n (f b) (update f b v) (set_to b v s)
  unfolding set_to
  set_to-Answers true = set_bit-Answers
  set_to-Answers false = clear_bit-Answers

  set_unsync-eq : (v : Bool) → set_unsync b v s ≡ set_to b v s
  unfolding set_unsync set_to
  set_unsync-eq true = set_bit_unsync-eq
  set_unsync-eq false = clear_bit_unsync-eq

  -- In a consistent bitset, a position below the length reads as the set says, and each way to
  -- write it answers what it held and leaves a consistent bitset for the set with that change.
  pub access_lem :
      (v : Bool)
      → (get b s ≡ ok (f b))
        × Answers n (f b) (update f b v) (set_to b v s)
        × Answers n (f b) (update f b v) (set_unsync b v s)
        × Answers n (f b) (update f b (not (f b))) (xor_bit b s)
  access_lem v =
      (get-member, set_to-Answers v, rw (set_unsync-eq v) (set_to-Answers v), xor_bit-Answers)
