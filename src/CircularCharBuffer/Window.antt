-- ===== src/CircularCharBuffer/Window.antt =====
-- Pointers into the buffer, for reading and for writing in place.
use graphlabapi_graphlab.Prelude.{
  ℕ, ◌+◌, ◌-◌, ◌≤◌, ◌<◌, ◌≡◌, min, refl, sym, ap, subst, ◌∙◌, arith, ltb, leb, leb→le, ◌⊎◌, inl,
  inr, if◌then◌else◌, true, false, Bool-cases, if_split, ◌==◌, none, some,
}
use graphlabapi_graphlab.CircularCharBuffer.{
  Memory, Buffer, memcpy, skip, contiguous, introspective_read, introspective_must_read,
  introspective_read_some, introspective_write, advance_write,
}
use graphlabapi_graphlab.CircularCharBuffer.Ring.{
  IsRing, IsContents, wrap, join, memcpy-in, memcpy-out,
}
use graphlabapi_graphlab.CircularCharBuffer.Reserve.{wrap_before}
use graphlabapi_graphlab.CircularCharBuffer.Write.{appended}
use graphlabapi_graphlab.CircularCharBuffer.Read.{skip-IsContents}

contiguous_le :
    (b : Buffer)
    → IsRing b
    → 1 ≤ b.len
    → (1 ≤ contiguous b) × (contiguous b ≤ b.len) × (b.head + contiguous b ≤ b.bufsize)
contiguous_le b ring some_bytes = ground (arith, ring.tail_at, ring.room, ring.head_in, some_bytes)

whole : (all : ℕ) → all ≡ (if ltb all all then all else all)
whole all = ground arith

-- The pointer that an introspective read returns points at the first bytes of the queue, in one piece inside
-- the buffer; the bytes read are taken away. At least one byte lies there if the buffer holds any. The three
-- reads differ in the number of bytes alone, and the one that must read fails, and takes nothing, if there
-- are not enough of them in one piece.
pub introspective_read-IsContents :
    (b : Buffer) (n clen : ℕ) (f : Memory)
    → IsContents b n f
    → 1 ≤ n
    → (let r = introspective_read_some b clen in
        let l = min clen (contiguous b) in
        (r.1 ≡ some b.head)
        × (r.2 ≡ l)
        × (1 ≤ contiguous b)
        × (contiguous b ≤ n)
        × (b.head + contiguous b ≤ b.bufsize)
        × ((k : ℕ) → k < contiguous b → b.buffer (b.head + k) ≡ f k)
        × IsContents r.0 (n - l) (λ k. f (l + k))
        × (introspective_must_read b clen
            ≡ (if leb clen (contiguous b) then (r.0, r.1, true) else (b, none, false)))
        × (introspective_read b ≡ introspective_read_some b (contiguous b)))
unfolding introspective_read_some introspective_must_read introspective_read
introspective_read-IsContents b n clen f contents one =
    let ring = contents.ring in
    let count = contents.count in
    let piece = contiguous_le b ring (omega (arith, count, one)) in
    let full : (b.len == 0) ≡ false = ground (arith, count, one) in
    let all = contiguous b in
    let l = if ltb clen all then clen else all in
    let same : l ≡ min clen all = ground arith in
    let skipped = skip-IsContents b n l f contents in
    let small : min l n ≡ min clen all = omega (arith, same, piece.1, count) in
    let at : (k : ℕ) → k < all → b.buffer (b.head + k) ≡ f k = λ k below.
      ap b.buffer (sym (wrap_before b.bufsize (b.head + k) (omega (arith, piece.2, below))))
      ∙ contents.bytes k (omega (arith, piece.1, below, count)) in
    let kept : IsContents (skip b l).0 (n - min clen all) (λ k. f (min clen all + k)) =
      subst (λ m. IsContents (skip b l).0 (n - m) (λ k. f (m + k))) small skipped.0 in
    rw full (
      refl,
      same,
      piece.0,
      omega (arith, piece.1, count),
      piece.2,
      at,
      kept,
      elim (Bool-cases (leb clen all)) [
        | inl e ↦
            let enough : l ≡ clen = ground (arith, leb→le clen all e) in
            rw e (ap (λ x. ((skip b x).0, some b.head, true)) (sym enough))
        | inr e ↦ rw e refl
      ],
      ap (λ x. ((skip b x).0, some b.head, x)) (whole all),
    )

-- The window for writing, in numbers.
abbrev window : (head tail size : ℕ) → ℕ
window head tail size =
    if leb head tail then size - tail - (if head == 0 then 1 else 0) else head - tail - 1

window_in :
    (size head len tail : ℕ)
    → head < size
    → tail ≡ wrap size (head + len)
    → len < size
    → tail + window head tail size ≤ size
window_in size head len tail head_in at room = ground arith

window_fits :
    (size head len tail bytes : ℕ)
    → head < size
    → tail ≡ wrap size (head + len)
    → len < size
    → bytes ≤ window head tail size
    → (bytes + len < size)
      × ((if leb size (tail + bytes) then tail + bytes - size else tail + bytes)
          ≡ wrap size (head + (len + bytes)))
window_fits size head len tail bytes head_in at room fits = ground arith

window_old :
    (size head len tail bytes k : ℕ)
    → head < size
    → tail ≡ wrap size (head + len)
    → len < size
    → bytes ≤ window head tail size
    → k < len
    → (wrap size (head + k) < tail) ⊎ (tail + bytes ≤ wrap size (head + k))
window_old size head len tail bytes k head_in at room fits below = ground arith

window_new :
    (size head len tail bytes k : ℕ)
    → head < size
    → tail ≡ wrap size (head + len)
    → len < size
    → bytes ≤ window head tail size
    → k < bytes
    → wrap size (head + (len + k)) ≡ tail + k
window_new size head len tail bytes k head_in at room fits below = ground arith

-- In a consistent buffer, which keeps a free place, the pointer and the length of `introspective_write`
-- lie inside the buffer, and bytes written there, no more than that, are appended by `advance_write`,
-- which leaves a consistent buffer.
pub advance_write-IsContents :
    (b : Buffer) (n bytes : ℕ) (f c : Memory)
    → IsContents b n f
    → bytes ≤ (introspective_write b).1
    → (let window = introspective_write b in
        (window.0 + window.1 ≤ b.bufsize)
        × IsContents
            (advance_write (record b { buffer = memcpy b.buffer window.0 c 0 bytes }) bytes)
            (n + bytes)
            (join n f c))
unfolding introspective_write advance_write
advance_write-IsContents b n bytes f c contents fits =
    let ring = contents.ring in
    let count = contents.count in
    let size = b.bufsize in
    let at : b.tail ≡ wrap size (b.head + n) =
      ring.tail_at ∙ ap (λ m. wrap size (b.head + m)) count in
    let room : n < size = omega (arith, ring.room, count) in
    let pointer : (introspective_write b).0 ≡ b.tail =
      if_split (λ (w : ℕ × ℕ). w.0 ≡ b.tail) (leb b.head b.tail) (λ _. refl) (λ _. refl) in
    let length : (introspective_write b).1 ≡ window b.head b.tail size =
      elim (Bool-cases (leb b.head b.tail)) [ inl e ↦ rw e refl | inr e ↦ rw e refl ] in
    let small : bytes ≤ window b.head b.tail size = omega (arith, fits, length) in
    let w = window_fits size b.head n b.tail bytes ring.head_in at room small in
    rw (pointer, length)
      (
        window_in size b.head n b.tail ring.head_in at room,
        appended b n bytes f c (memcpy b.buffer b.tail c 0 bytes)
            (if leb size (b.tail + bytes) then b.tail + bytes - size else b.tail + bytes) contents
            (omega (arith, w.0)) (w.1 ∙ ap (λ m. wrap size (b.head + (m + bytes))) (sym count))
            (λ k below.
              memcpy-out b.buffer b.tail c 0 bytes (wrap size (b.head + k))
                (window_old size b.head n b.tail bytes k ring.head_in at room small below))
            (λ k below.
              let place =
                window_new size b.head n b.tail bytes k ring.head_in at room small below in
              memcpy-in b.buffer b.tail c 0 bytes (wrap size (b.head + (n + k))) k
                (omega (arith, place)) (omega (arith, place, below)) (omega (arith, place))),
      )
