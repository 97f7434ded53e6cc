-- ===== src/DenseBitset.antt =====
-- The class `dense_bitset` of util/dense_bitset.hpp: bits in an array of 64-bit words.
-- The array is a function of the index with the number of its words; an access outside of it
-- is undefined behaviour. What realloc leaves in new words is a parameter.
pub mod Members
pub mod Access
pub mod Search
pub mod Algebra
pub mod Transfer
use Prim.Native.Nat.{bit_and, bit_or, bit_xor}
use graphlabapi_graphlab.Prelude.{
  ℕ, zero, suc, ◌+◌, ◌-◌, ◌*◌, ◌/◌, ◌%◌, ◌^◌, ◌≡◌, ltb, leb, ◌==◌, if◌then◌else◌, Bool, true, false,
  not, ◌&&◌, Option, none, some, List, [], ◌∷◌,
}
use graphlabapi_graphlab.Prelude.Run.{Run, ok, fault, ◌>>=◌, assert}
use graphlabapi_graphlab.Prelude.Updates.{update}
use graphlabapi_graphlab.Prelude.Bits.{is_odd}

pub record Bitset : Type 0 where
  pub array : ℕ → ℕ
  pub len : ℕ
  pub arrlen : ℕ

-- size_t(-1), and the operators << and ~ on words
abbrev pub size_max : ℕ
size_max = 18446744073709551615

unfoldable pub one_shl : ℕ → ℕ
one_shl b = 2 ^ b % 18446744073709551616

unfoldable pub complement : ℕ → ℕ
complement w = size_max - w

-- The compiler's builtins on a word of `n` digits: trailing zeros, and ones.
unfoldable pub ctz : ℕ → ℕ → ℕ
ctz zero w = 0
ctz (suc n) w = let rest = ctz n (w / 2) in if is_odd w then 0 else suc rest

unfoldable pub ones : ℕ → ℕ → ℕ
ones zero w = 0
ones (suc n) w = w % 2 + ones n (w / 2)

-- How many words hold `n` bits.
unfoldable pub words : ℕ → ℕ
words n = n / 64 + (if ltb 0 (n % 64) then 1 else 0)

abbrev pub arrpos : ℕ → ℕ
arrpos b = b / 64

abbrev pub bitpos : ℕ → ℕ
bitpos b = bit_and b 63

unfoldable pub first_bit_in_block : ℕ → ℕ
first_bit_in_block block = if block == 0 then 0 else ctz 64 block

unfoldable pub below_selected : ℕ → ℕ
below_selected b = size_max - bit_or (one_shl b - 1) (one_shl b)

unfoldable pub next_bit_in_block : ℕ → ℕ → ℕ
next_bit_in_block b block =
    let x = bit_and block (below_selected b) in if x == 0 then 0 else ctz 64 x

-- array[i] = w
abbrev pub write : ℕ → ℕ → Bitset → Bitset
write i w s = record s { array = update s.array i w }

unfoldable pub fix_trailing_bits : Bitset → Bitset
fix_trailing_bits s =
    let lastbits = s.len % 64 in
    let i = s.arrlen - 1 in
    if lastbits == 0 then s else write i (bit_and (s.array i) (one_shl lastbits - 1)) s

-- for (i = 0; i < n; ++i) array[i] = g(i, array[i])
unfoldable pub for_each : (ℕ → ℕ → ℕ) → ℕ → (ℕ → ℕ) → ℕ → ℕ
for_each g zero a = a
for_each g (suc n) a = let rest = for_each g n a in update rest n (g n (rest n))

abbrev pub each : (ℕ → ℕ → ℕ) → Bitset → Bitset
each g s = record s { array = for_each g s.arrlen s.array }

-- realloc keeps the words that fit; `fresh` are the words that it adds.
unfoldable pub resize : (ℕ → ℕ) → ℕ → Bitset → Bitset
resize fresh n s =
    fix_trailing_bits record {
      array = λ i. if ltb i s.arrlen then s.array i else fresh i;
      len = n;
      arrlen = words n;
    }

unfoldable pub clear : Bitset → Bitset
clear s = each (λ i w. 0) s

unfoldable pub new_empty : Bitset
new_empty = record { array = λ i. 0; len = 0; arrlen = 0 }

unfoldable pub new : (ℕ → ℕ) → ℕ → Bitset
new fresh size = clear (resize fresh size (record new_empty { len = size }))

-- memcpy of the other's words over one's own
unfoldable pub assign : (ℕ → ℕ) → Bitset → Bitset → Bitset
assign fresh db s =
    let r = resize fresh db.len s in
    record {
      array = λ i. if ltb i db.arrlen then db.array i else r.array i;
      len = db.len;
      arrlen = db.arrlen;
    }

unfoldable pub copy : (ℕ → ℕ) → Bitset → Bitset
copy fresh db = assign fresh db new_empty

-- from word `i`, `n` words to go
unfoldable pub all_zero : (ℕ → ℕ) → ℕ → ℕ → Bool
all_zero a i zero = true
all_zero a i (suc n) = let rest = all_zero a (suc i) n in if not (a i == 0) then false else rest

unfoldable pub is_empty : Bitset → Bool
is_empty s = all_zero s.array 0 s.arrlen

unfoldable pub fill : Bitset → Bitset
fill s = fix_trailing_bits (each (λ i w. size_max) s)

-- array[arrpos], for the position of the bit `b`
unfoldable pub containing_word : ℕ → Bitset → Run ℕ
containing_word b s = if ltb (arrpos b) s.arrlen then ok (s.array (arrpos b)) else fault

abbrev pub mask_of : ℕ → ℕ
mask_of b = one_shl (bitpos b)

-- A word & a mask, taken for a bool.
abbrev pub meets : ℕ → ℕ → Bool
meets w mask = not (bit_and w mask == 0)

unfoldable pub get : ℕ → Bitset → Run Bool
get b s = containing_word b s >>= λ w. ok (meets w (mask_of b))

-- fetch_and_store, the word and what it was
unfoldable pub get_containing_word_and_zero : ℕ → Bitset → Run (ℕ × Bitset)
get_containing_word_and_zero b s = containing_word b s >>= λ w. ok (w, write (arrpos b) 0 s)

-- __sync_fetch_and_or, __sync_fetch_and_xor and __sync_fetch_and_and are one step each.
abbrev fetch_and : (ℕ → ℕ) → ℕ → Bitset → Run (ℕ × Bitset)
fetch_and g b s = containing_word b s >>= λ w. ok (w, write (arrpos b) (g w) s)

unfoldable pub set_bit : ℕ → Bitset → Run (Bool × Bitset)
set_bit b s = fetch_and (λ w. bit_or w (mask_of b)) b s >>= λ (w, t). ok (meets w (mask_of b), t)

unfoldable pub xor_bit : ℕ → Bitset → Run (Bool × Bitset)
xor_bit b s = fetch_and (λ w. bit_xor w (mask_of b)) b s >>= λ (w, t). ok (meets w (mask_of b), t)

unfoldable pub clear_bit : ℕ → Bitset → Run (Bool × Bitset)
clear_bit b s = fetch_and (λ w. bit_and w (complement (mask_of b))) b s >>= λ (w, t).
    ok (meets w (mask_of b), t)

-- The same without the atomic step: the bit is read, and then the word is written.
unfoldable pub set_bit_unsync : ℕ → Bitset → Run (Bool × Bitset)
set_bit_unsync b s = get b s >>= λ ret.
    containing_word b s >>= λ w. ok (ret, write (arrpos b) (bit_or w (mask_of b)) s)

unfoldable pub clear_bit_unsync : ℕ → Bitset → Run (Bool × Bitset)
clear_bit_unsync b s = get b s >>= λ ret.
    containing_word b s >>= λ w. ok (ret, write (arrpos b) (bit_and w (complement (mask_of b))) s)

unfoldable pub set_to : ℕ → Bool → Bitset → Run (Bool × Bitset)
set_to b value s = if value then set_bit b s else clear_bit b s

unfoldable pub set_unsync : ℕ → Bool → Bitset → Run (Bool × Bitset)
set_unsync b value s = if value then set_bit_unsync b s else clear_bit_unsync b s
