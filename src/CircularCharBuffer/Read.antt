-- ===== src/CircularCharBuffer/Read.antt =====
-- Reading takes the first bytes away.
use graphlabapi_graphlab.Prelude.{
  ℕ, ◌+◌, ◌-◌, ◌≤◌, ◌<◌, ◌≡◌, min, refl, sym, ap, subst, ◌∙◌, arith, ltb, leb, ltb→lt, inl, inr,
  if◌then◌else◌, false, Bool-cases, if_split, ◌==◌, ==_iff, ==_refl, Option, none, some,
}
use graphlabapi_graphlab.CircularCharBuffer.{Memory, Buffer, memcpy, peek, skip, read}
use graphlabapi_graphlab.CircularCharBuffer.Ring.{
  IsRing, IsContents, byte, wrap, over, memcpy-in, memcpy-out,
}

-- A skip of `m` bytes.
skip_arith :
    (size head len tail m : ℕ)
    → head < size
    → tail ≡ wrap size (head + len)
    → len < size
    → m ≤ len
    → ((if leb size (head + m) then head + m - size else head + m) < size)
      × (tail ≡ wrap size ((if leb size (head + m) then head + m - size else head + m) + (len - m)))
skip_arith size head len tail m head_in at room le = ground arith

skip_place :
    (size head len k m : ℕ)
    → head < size
    → len < size
    → m + k < len
    → wrap size ((if leb size (head + m) then head + m - size else head + m) + k)
      ≡ wrap size (head + (m + k))
skip_place size head len k m head_in room le = ground arith

pub skip-IsContents :
    (b : Buffer) (n clen : ℕ) (f : Memory)
    → IsContents b n f
    → IsContents (skip b clen).0 (n - min clen n) (λ k. f (min clen n + k))
      × ((skip b clen).1 ≡ min clen n)
unfolding skip
skip-IsContents b n clen f contents =
    let ring = contents.ring in
    let count = contents.count in
    let m = min clen b.len in
    let same : m ≡ min clen n = ap (min clen) count in
    let moved =
      skip_arith b.bufsize b.head b.len b.tail m ring.head_in ring.tail_at ring.room
        (omega arith) in
    (
      record {
        ring = record { room = omega (arith, ring.room); head_in = moved.0; tail_at = moved.1 };
        count = omega (arith, count);
        bytes = λ k below.
            ap b.buffer (
              skip_place b.bufsize b.head b.len k m ring.head_in ring.room
                (omega (arith, count, below)))
            ∙ contents.bytes (m + k) (omega (arith, count, below))
            ∙ ap (λ j. f (j + k)) same;
      },
      same,
    )

-- What a peek has copied: the first `m` bytes, over what was there.
abbrev pub IsPeek : Buffer → Memory → ℕ → Memory × ℕ → Type 0
IsPeek b c m r = (r.1 ≡ m) × ((k : ℕ) → k < m → r.0 k ≡ byte b k) × ((k : ℕ) → m ≤ k → r.0 k ≡ c k)

one_piece :
    (b : Buffer) (c : Memory) (m first k : ℕ)
    → first ≡ min (b.bufsize - b.head) m
    → k < first
    → memcpy c 0 b.buffer b.head first k ≡ byte b k
one_piece b c m first k is below =
    let at : wrap b.bufsize (b.head + k) ≡ b.head + k = ground (arith, is) in
    memcpy-in c 0 b.buffer b.head first k (wrap b.bufsize (b.head + k)) (omega arith)
      (omega (arith, below)) (omega (arith, at))

two_pieces :
    (b : Buffer) (c : Memory) (m first : ℕ)
    → IsRing b
    → m ≤ b.len
    → first ≡ min (b.bufsize - b.head) m
    → first < m
    → IsPeek b c m
        (memcpy (memcpy c 0 b.buffer b.head first) first b.buffer 0 (min b.tail (m - first)), m)
two_pieces b c m first ring le is part =
    let one = memcpy c 0 b.buffer b.head first in
    let rest : min b.tail (m - first) ≡ m - first =
      ground (arith, is, ring.tail_at, ring.room, ring.head_in) in
    (
      refl,
      λ k below. elim (Bool-cases (ltb k first)) [
        | inl early ↦
            memcpy-out one first b.buffer 0 (min b.tail (m - first)) k (inl (ltb→lt k first early))
            ∙ one_piece b c m first k is (ltb→lt k first early)
        | inr late ↦
            let past : first ≤ k = ground (arith, late) in
            let at : wrap b.bufsize (b.head + k) ≡ k - first =
              ground (arith, is, part, past, ring.head_in, ring.room) in
            memcpy-in one first b.buffer 0 (min b.tail (m - first)) k (wrap b.bufsize (b.head + k))
              past (omega (arith, rest, below, past)) (omega (arith, at))
      ],
      λ k above.
          memcpy-out one first b.buffer 0 (min b.tail (m - first)) k
            (inr (omega (arith, rest, above)))
          ∙ memcpy-out c 0 b.buffer b.head first k (inr (omega (arith, part, above))),
    )

pub peek-IsPeek :
    (b : Buffer) (c : Memory) (clen : ℕ) → IsRing b → IsPeek b c (min clen b.len) (peek b c clen)
unfolding peek
peek-IsPeek b c clen ring =
    let m = min clen b.len in
    let first = min (b.bufsize - b.head) m in
    if_split (IsPeek b c m) (m == 0)
      (λ e.
        let none : m ≡ 0 = (==_iff m 0).0 e in
        (sym none, λ k below. absurd (omega (arith, none, below)), λ k above. refl))
      (λ _.
        if_split (IsPeek b c m) (first == m)
          (λ e.
            let all : first ≡ m = (==_iff first m).0 e in
            (
              refl,
              λ k below. one_piece b c m first k refl (omega (arith, all, below)),
              λ k above. memcpy-out c 0 b.buffer b.head first k (inr (omega (arith, all, above))),
            ))
          (λ e. two_pieces b c m first ring (omega arith) refl (ground (arith, e, ==_refl first))))

-- Peeking copies the first bytes of the buffer, as many as it holds and as were asked for, and nothing
-- behind them; reading also takes them away, and fails if there is none. The string overloads start from an
-- array of zeros.
pub read-IsContents :
    (b : Buffer) (n clen : ℕ) (f c : Memory)
    → IsContents b n f
    → (let m = min clen n in
        let r = read b c clen in
        ((peek b c clen).1 ≡ m)
        × ((k : ℕ) → (peek b c clen).0 k ≡ over m f c k)
        × IsContents r.0 (n - m) (λ k. f (m + k))
        × ((k : ℕ) → r.1 k ≡ over m f c k)
        × (r.2 ≡ (if n == 0 then none else some m)))
unfolding read
read-IsContents b n clen f c contents =
    let m = min clen n in
    let count = contents.count in
    let peeked : IsPeek b c m (peek b c clen) =
      subst (λ l. IsPeek b c (min clen l) (peek b c clen)) count
        (peek-IsPeek b c clen contents.ring) in
    let bytes : (k : ℕ) → (peek b c clen).0 k ≡ over m f c k = λ k.
      if_split (λ v. (peek b c clen).0 k ≡ v) (ltb k m)
        (λ e.
          let below = ltb→lt k m e in peeked.1 k below ∙ contents.bytes k (omega (arith, below)))
        (λ e. peeked.2 k (ground (arith, e))) in
    let readlen = (peek b c clen).1 in
    let skipped = skip-IsContents b n readlen f contents in
    let all : min readlen n ≡ m = omega (arith, peeked.0) in
    let taken =
      if_split
        (λ (r : Buffer × Memory × Option ℕ).
          IsContents r.0 (n - m) (λ k. f (m + k))
          × ((k : ℕ) → r.1 k ≡ over m f c k)
          × (r.2 ≡ (if n == 0 then none else some m)))
        (b.len == 0)
        (λ e.
          let nothing : n ≡ 0 = sym count ∙ (==_iff b.len 0).0 e in
          let zero_m : m ≡ 0 = omega (arith, nothing) in
          (
            record {
              ring = contents.ring;
              count = omega (arith, count, nothing);
              bytes = λ k below. absurd (omega (arith, nothing, below));
            },
            λ k.
                if_split (λ v. c k ≡ v) (ltb k m) (λ below. absurd (ground (arith, below, zero_m)))
                  (λ _. refl),
            rw nothing refl,
          ))
        (λ e.
          let something : (n == 0) ≡ false = ap (λ l. l == 0) (sym count) ∙ e in
          (
            subst (λ l. IsContents (skip b readlen).0 (n - l) (λ k. f (l + k))) all skipped.0,
            bytes,
            rw something (ap some peeked.0),
          )) in
    (peeked.0, bytes, taken.0, taken.1, taken.2)
