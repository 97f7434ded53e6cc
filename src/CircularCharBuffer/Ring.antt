-- ===== src/CircularCharBuffer/Ring.antt =====
-- What a consistent buffer is, and the bytes it holds.
use graphlabapi_graphlab.Prelude.{
  ℕ, ◌+◌, ◌-◌, ◌≤◌, ◌<◌, ◌≡◌, refl, ap, arith, ltb, leb, ◌&&◌, ◌⊎◌, if◌then◌else◌, true, false,
}
use graphlabapi_graphlab.CircularCharBuffer.{Memory, Buffer, memcpy}

abbrev pub wrap : ℕ → ℕ → ℕ
wrap bufsize p = if ltb p bufsize then p else p - bufsize

-- One place stays free, so that a head equal to the tail means an empty buffer.
pub record IsRing (b : Buffer) : Type 0 where
  pub room : b.len < b.bufsize
  pub head_in : b.head < b.bufsize
  pub tail_at : b.tail ≡ wrap b.bufsize (b.head + b.len)

-- The byte `k` places behind the head.
abbrev pub byte : Buffer → ℕ → ℕ
byte b k = b.buffer (wrap b.bufsize (b.head + k))

-- The buffer is consistent, and a queue of the first `n` bytes of `f`. It keeps a free place, as every
-- buffer does but one that the copy constructor or operator= makes of a full one.
pub record IsContents (b : Buffer) (n : ℕ) (f : Memory) : Type 0 where
  pub ring : IsRing b
  pub count : b.len ≡ n
  pub bytes : (k : ℕ) → k < n → byte b k ≡ f k

-- The first `n` bytes of one memory, and then the other's.
abbrev pub join : ℕ → Memory → Memory → Memory
join n f g k = if ltb k n then f k else g (k - n)

-- The first `n` bytes of one memory over another.
abbrev pub over : ℕ → Memory → Memory → Memory
over n f c k = if ltb k n then f k else c k

pub memcpy-in :
    (dst : Memory) (at : ℕ) (src : Memory) (start n j k : ℕ)
    → at ≤ j
    → j < at + n
    → start + (j - at) ≡ k
    → memcpy dst at src start n j ≡ src k
unfolding memcpy
memcpy-in dst at src start n j k low high same =
    let inside : (leb at j && ltb j (at + n)) ≡ true = ground arith in rw inside (ap src same)

pub memcpy-out :
    (dst : Memory) (at : ℕ) (src : Memory) (start n j : ℕ)
    → (j < at) ⊎ (at + n ≤ j)
    → memcpy dst at src start n j ≡ dst j
unfolding memcpy
memcpy-out dst at src start n j outside =
    let miss : (leb at j && ltb j (at + n)) ≡ false = ground (arith, outside) in rw miss refl
