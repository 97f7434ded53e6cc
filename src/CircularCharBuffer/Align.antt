-- ===== src/CircularCharBuffer/Align.antt =====
-- Aligning and squeezing move the head to the start of the buffer.
use graphlabapi_graphlab.Prelude.{
  ℕ, ◌+◌, ◌≤◌, ◌<◌, ◌≡◌, max, refl, ap, ◌∙◌, arith, ltb, leb, leb→le, if◌then◌else◌, if_split,
}
use graphlabapi_graphlab.CircularCharBuffer.{Memory, Buffer, memcpy, peek, align, squeeze}
use graphlabapi_graphlab.CircularCharBuffer.Ring.{IsRing, IsContents, byte, wrap, memcpy-in}
use graphlabapi_graphlab.CircularCharBuffer.Reserve.{straight, wrap_before}
use graphlabapi_graphlab.CircularCharBuffer.Read.{peek-IsPeek}

add_zero : (k : ℕ) → 0 + k ≡ k
add_zero k = omega arith

-- The bytes in their order from the start of a buffer with room for them.
restarted :
    (b : Buffer) (n size : ℕ) (f buffer : Memory)
    → IsContents b n f
    → n < size
    → ((k : ℕ) → k < b.len → buffer k ≡ byte b k)
    → IsContents (record b { buffer = buffer; head = 0; tail = b.len; bufsize = size }) n f
restarted b n size f buffer contents room moved = record {
  ring = record {
    room = omega (arith, contents.count);
    head_in = omega arith;
    tail_at = omega (arith, wrap_before size (0 + b.len) (omega (arith, contents.count)));
  };
  count = contents.count;
  bytes = λ k below.
      ap buffer (wrap_before size (0 + k) (omega (arith, room, below)) ∙ add_zero k)
      ∙ moved k (omega (arith, below, contents.count))
      ∙ contents.bytes k below;
}

-- The bytes as the two branches place them.
aligned_byte :
    (malloc : Memory) (b : Buffer)
    → IsRing b
    → (k : ℕ) → k < b.len
    → (let moved = if ltb 0 b.head then memcpy b.buffer 0 b.buffer b.head b.len else b.buffer in
        (if leb b.head b.tail then moved else (peek b malloc b.len).0) k ≡ byte b k)
aligned_byte malloc b ring k below =
    let moved = if ltb 0 b.head then memcpy b.buffer 0 b.buffer b.head b.len else b.buffer in
    if_split (λ (m : Memory). m k ≡ byte b k) (leb b.head b.tail)
      (λ le.
        let fits = straight b ring (leb→le b.head b.tail le) in
        let at = wrap_before b.bufsize (b.head + k) (omega (arith, fits, below)) in
        if_split (λ (m : Memory). m k ≡ byte b k) (ltb 0 b.head)
          (λ _.
            memcpy-in b.buffer 0 b.buffer b.head b.len k (wrap b.bufsize (b.head + k)) (omega arith)
              (omega (arith, below)) (omega (arith, at)))
          (λ zero_head. ap b.buffer (ground (arith, zero_head, at))))
      (λ _. (peek-IsPeek b malloc b.len ring).1 k (omega (arith, below)))

-- Aligning keeps the bytes and the size and leaves them in one piece from the start; squeezing keeps the
-- bytes too, and leaves a buffer of one place more than the bytes, or of four.
pub align-IsContents :
    (malloc : Memory) (b : Buffer) (n : ℕ) (f : Memory)
    → IsContents b n f
    → 4 ≤ b.bufsize
    → IsContents (align malloc b) n f
      × ((align malloc b).bufsize ≡ b.bufsize)
      × ((align malloc b).head ≡ 0)
      × IsContents (squeeze malloc b) n f
      × ((squeeze malloc b).bufsize ≡ (if leb b.bufsize 4 then 4 else max (n + 1) 4))
unfolding align squeeze
align-IsContents malloc b n f contents four =
    let bytes = aligned_byte malloc b contents.ring in
    let room : n < b.bufsize = omega (arith, contents.ring.room, contents.count) in
    let squeezed =
      if_split
        (λ (r : Buffer).
          IsContents r n f × (r.bufsize ≡ (if leb b.bufsize 4 then 4 else max (n + 1) 4)))
        (leb b.bufsize 4) (λ e. (contents, rw e (omega (arith, four, leb→le b.bufsize 4 e))))
        (λ e. (
          restarted b n (max (b.len + 1) 4) f _ contents (omega (arith, contents.count)) bytes,
          rw e (omega (arith, contents.count)),
        )) in
    (restarted b n b.bufsize f _ contents room bytes, refl, refl, squeezed.0, squeezed.1)
