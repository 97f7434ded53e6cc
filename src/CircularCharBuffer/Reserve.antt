-- ===== src/CircularCharBuffer/Reserve.antt =====
-- Growing, squeezing and aligning the buffer.
use graphlabapi_graphlab.Prelude.{
  ℕ, ◌+◌, ◌-◌, ◌%◌, ◌≤◌, ◌<◌, ◌≡◌, min, sym, ap, ◌∙◌, arith, ltb, leb, leb→le, ltb→lt, inl, inr,
  if◌then◌else◌, Bool-cases, if_split,
}
use native.Mathlib.Nat.{mod-eq_of_lt, mod-eq-sub-mod}
use graphlabapi_graphlab.CircularCharBuffer.{Memory, Buffer, memcpy, reserve}
use graphlabapi_graphlab.CircularCharBuffer.Ring.{
  IsRing, IsContents, byte, wrap, memcpy-in, memcpy-out,
}

-- The tail is behind the head unless the bytes go round.
pub straight : (b : Buffer) → IsRing b → b.head ≤ b.tail → b.head + b.len < b.bufsize
straight b ring le = ground (arith, ring.tail_at, ring.head_in, ring.room)

pub round :
    (b : Buffer)
    → IsRing b
    → b.tail < b.head
    → (b.bufsize ≤ b.head + b.len) × (b.tail + b.bufsize ≡ b.head + b.len)
round b ring lt = ground (arith, ring.tail_at, ring.head_in, ring.room)

widen :
    (b : Buffer) (n s : ℕ) (f : Memory)
    → IsContents b n f
    → b.head ≤ b.tail
    → b.bufsize < s
    → IsContents (record b { bufsize = s }) n f
widen b n s f contents le wider =
    let ring = contents.ring in
    let ends = straight b ring le in
    record {
      ring = record {
        room = omega (arith, ring.room);
        head_in = omega (arith, ring.head_in);
        tail_at = ground (arith, ring.tail_at, ends);
      };
      count = contents.count;
      bytes =
          λ k below. ap b.buffer (ground (arith, ends, contents.count)) ∙ contents.bytes k below;
    }

wrap-mod : (s x : ℕ) → x < s + s → x % s ≡ wrap s x
wrap-mod s x bound = elim (Bool-cases (ltb x s)) [
  | inl e ↦ rw e (mod-eq_of_lt (ltb→lt x s e))
  | inr e ↦
      let past : s ≤ x = ground (arith, e) in
      rw e (mod-eq-sub-mod past ∙ mod-eq_of_lt (omega (arith, past)))
]

pub wrap_before : (s x : ℕ) → x < s → wrap s x ≡ x
wrap_before s x h = ground arith

pub wrap_past : (s x : ℕ) → s ≤ x → wrap s x ≡ x - s
wrap_past s x h = ground arith

unrolled_byte :
    (b : Buffer) (s k : ℕ)
    → b.head < b.bufsize
    → b.tail < b.head
    → b.bufsize < s
    → (b.bufsize ≤ b.head + b.len) × (b.tail + b.bufsize ≡ b.head + b.len)
    → k < b.len
    → (let movebytes = min b.tail (s - b.bufsize) in
        let copied = memcpy b.buffer b.bufsize b.buffer 0 movebytes in
        memcpy copied 0 copied movebytes (b.tail - movebytes) (wrap s (b.head + k)) ≡ byte b k)
unrolled_byte b s k head_in lt wider goes below =
    let old = b.bufsize in
    let pos = b.head + k in
    let mv = min b.tail (s - old) in
    let copied = memcpy b.buffer old b.buffer 0 mv in
    let moved = memcpy copied 0 copied mv (b.tail - mv) in
    elim (Bool-cases (ltb pos old)) [
      | inl e ↦
          let early : pos < old = ltb→lt pos old e in
          ap moved (wrap_before s pos (omega (arith, early)))
          ∙ memcpy-out copied 0 copied mv (b.tail - mv) pos (inr (omega arith))
          ∙ memcpy-out b.buffer old b.buffer 0 mv pos (inl early)
          ∙ ap b.buffer (sym (wrap_before old pos early))
      | inr e ↦
          let late : old ≤ pos = ground (arith, e) in
          let at_old = ap b.buffer (sym (wrap_past old pos late)) in
          elim (Bool-cases (ltb pos s)) [
            | inl e ↦
                let fits : pos < s = ltb→lt pos s e in
                ap moved (wrap_before s pos fits)
                ∙ memcpy-out copied 0 copied mv (b.tail - mv) pos
                    (inr (omega (arith, late, goes.1)))
                ∙ memcpy-in b.buffer old b.buffer 0 mv pos (pos - old) late
                    (omega (arith, late, fits, goes.1)) (omega arith)
                ∙ at_old
            | inr e ↦
                let over : s ≤ pos = ground (arith, e) in
                ap moved (wrap_past s pos over)
                ∙ memcpy-in copied 0 copied mv (b.tail - mv) (pos - s) (pos - old) (omega arith)
                    (omega (arith, over, goes.1)) (omega (arith, over, goes.1))
                ∙ memcpy-out b.buffer old b.buffer 0 mv (pos - old)
                    (inl (omega (arith, over, goes.1, late)))
                ∙ at_old
          ]
    ]

-- The bytes at the start of the buffer move behind its old end, as many as fit, and the rest to the start.
unroll :
    (b : Buffer) (n s : ℕ) (f : Memory)
    → IsContents b n f
    → b.tail < b.head
    → b.bufsize < s
    → (let movebytes = min b.tail (s - b.bufsize) in
        let copied = memcpy b.buffer b.bufsize b.buffer 0 movebytes in
        IsContents
          (record b {
            buffer = memcpy copied 0 copied movebytes (b.tail - movebytes);
            bufsize = s;
            tail = (b.head + b.len) % s;
          })
          n
          f)
unroll b n s f contents lt wider =
    let ring = contents.ring in
    let goes = round b ring lt in
    let movebytes = min b.tail (s - b.bufsize) in
    let copied = memcpy b.buffer b.bufsize b.buffer 0 movebytes in
    record {
      ring = record {
        room = omega (arith, ring.room);
        head_in = omega (arith, ring.head_in);
        tail_at = wrap-mod s (b.head + b.len) (omega (arith, ring.room, ring.head_in));
      };
      count = contents.count;
      bytes = λ k below.
          unrolled_byte b s k ring.head_in lt wider goes (omega (arith, below, contents.count))
          ∙ contents.bytes k below;
    }

-- Reserving keeps the bytes, and gives at least the room that was asked for.
pub reserve-IsContents :
    (b : Buffer) (n wanted : ℕ) (f : Memory)
    → IsContents b n f
    → IsContents (reserve b wanted) n f × (wanted ≤ (reserve b wanted).bufsize)
unfolding reserve
reserve-IsContents b n wanted f contents =
    let s = if leb wanted 4 then 4 else wanted in
    let least : wanted ≤ s = ground arith in
    if_split (λ (r : Buffer). IsContents r n f × (wanted ≤ r.bufsize)) (leb s b.bufsize)
      (λ e. (contents, omega (arith, least, leb→le s b.bufsize e)))
      (λ e.
        let wider : b.bufsize < s = ground (arith, e) in
        if_split (λ (r : Buffer). IsContents r n f × (wanted ≤ r.bufsize)) (leb b.head b.tail)
          (λ le. (widen b n s f contents (leb→le b.head b.tail le) wider, least))
          (λ gt. (unroll b n s f contents (ground (arith, gt)) wider, least)))
