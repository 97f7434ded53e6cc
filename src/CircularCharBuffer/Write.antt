-- ===== src/CircularCharBuffer/Write.antt =====
-- Writing appends bytes.
use graphlabapi_graphlab.Prelude.{
  ℕ, ◌+◌, ◌-◌, ◌≤◌, ◌<◌, ◌≡◌, min, refl, ap, ◌∙◌, arith, ltb, ltb→lt, ◌⊎◌, inl, inr, if◌then◌else◌,
  Bool-cases, if_split, ◌==◌, ==_iff, ==_refl, ◌≢◌,
}
use graphlabapi_graphlab.CircularCharBuffer.{Memory, Buffer, memcpy, reserve, write_in, write}
use graphlabapi_graphlab.CircularCharBuffer.Ring.{IsContents, wrap, join, memcpy-in, memcpy-out}
use graphlabapi_graphlab.CircularCharBuffer.Reserve.{reserve-IsContents}

-- A buffer whose bytes behind the tail are those of `c`, with the tail moved past them.
pub appended :
    (r : Buffer) (n clen : ℕ) (f c buffer : Memory) (tail : ℕ)
    → IsContents r n f
    → clen + n < r.bufsize
    → tail ≡ wrap r.bufsize (r.head + (r.len + clen))
    → ((k : ℕ)
        → k < n
        → buffer (wrap r.bufsize (r.head + k)) ≡ r.buffer (wrap r.bufsize (r.head + k)))
    → ((k : ℕ) → k < clen → buffer (wrap r.bufsize (r.head + (n + k))) ≡ c k)
    → IsContents
        (record r { buffer = buffer; tail = tail; len = r.len + clen })
        (n + clen)
        (join n f c)
appended r n clen f c buffer tail contents room at kept added = record {
  ring = record {
    room = omega (arith, contents.count);
    head_in = contents.ring.head_in;
    tail_at = at;
  };
  count = omega (arith, contents.count);
  bytes = λ k below.
      if_split (λ v. buffer (wrap r.bufsize (r.head + k)) ≡ v) (ltb k n)
        (λ e. kept k (ltb→lt k n e) ∙ contents.bytes k (ltb→lt k n e))
        (λ e.
          let late : n ≤ k = ground (arith, e) in
          ap (λ j. buffer (wrap r.bufsize (r.head + j))) (omega (arith, late))
          ∙ added (k - n) (omega (arith, late)));
}

-- Where the bytes lie: those that are held, and those that are added.
used :
    (size head len tail clen k : ℕ)
    → head < size
    → tail ≡ wrap size (head + len)
    → clen + len < size
    → k < len
    → ((wrap size (head + k) < tail) ⊎ (tail + min clen (size - tail) ≤ wrap size (head + k)))
      × (clen - min clen (size - tail) ≤ wrap size (head + k))
used size head len tail clen k head_in at room below = ground arith

free :
    (size head len tail k : ℕ)
    → head < size
    → tail ≡ wrap size (head + len)
    → len + k < size
    → wrap size (head + (len + k)) ≡ wrap size (tail + k)
free size head len tail k head_in at room = ground arith

tail_once :
    (size head len tail clen first : ℕ)
    → head < size
    → tail ≡ wrap size (head + len)
    → clen + len < size
    → first ≡ min clen (size - tail)
    → first ≡ clen
    → (if tail + first == size then 0 else tail + first) ≡ wrap size (head + (len + clen))
tail_once size head len tail clen first head_in at room is all = ground arith

tail_twice :
    (size head len tail clen first : ℕ)
    → head < size
    → tail ≡ wrap size (head + len)
    → clen + len < size
    → first ≡ min clen (size - tail)
    → first ≢ clen
    → (if tail + first == size then 0 else tail + first) + (clen - first)
      ≡ wrap size (head + (len + clen))
tail_twice size head len tail clen first head_in at room is part = ground arith

-- The bytes that fit before the end, and those that go round.
before_end : (size tail clen k : ℕ) → k < min clen (size - tail) → wrap size (tail + k) ≡ tail + k
before_end size tail clen k below = ground arith

past_end :
    (size tail clen k : ℕ)
    → tail < size
    → k < clen
    → clen < size
    → min clen (size - tail) ≤ k
    → (wrap size (tail + k) < clen - min clen (size - tail))
      × (min clen (size - tail) + (wrap size (tail + k) - 0) ≡ k)
past_end size tail clen k tail_in below less late = ground arith

write_in-IsContents :
    (r : Buffer) (n clen : ℕ) (f c : Memory)
    → IsContents r n f
    → clen + n < r.bufsize
    → IsContents (write_in r c clen).0 (n + clen) (join n f c) × ((write_in r c clen).1 ≡ clen)
unfolding write_in
write_in-IsContents r n clen f c contents room =
    let ring = contents.ring in
    let size = r.bufsize in
    let tail = r.tail in
    let count = contents.count in
    let first = min clen (size - tail) in
    let one = memcpy r.buffer tail c 0 first in
    let place : (k : ℕ) → k < clen → wrap size (r.head + (n + k)) ≡ wrap size (tail + k) =
      λ k below.
        free size r.head n tail k ring.head_in
          (ring.tail_at ∙ ap (λ m. wrap size (r.head + m)) count) (omega arith) in
    let old : (k : ℕ)
        → k < n
        → ((wrap size (r.head + k) < tail) ⊎ (tail + first ≤ wrap size (r.head + k)))
          × (clen - first ≤ wrap size (r.head + k)) =
      λ k below.
        used size r.head n tail clen k ring.head_in
          (ring.tail_at ∙ ap (λ m. wrap size (r.head + m)) count) room below in
    let kept : (k : ℕ) → k < n → one (wrap size (r.head + k)) ≡ r.buffer (wrap size (r.head + k)) =
      λ k below. memcpy-out r.buffer tail c 0 first (wrap size (r.head + k)) (old k below).0 in
    let in_one : (k : ℕ) → k < first → one (wrap size (tail + k)) ≡ c k = λ k below.
      memcpy-in r.buffer tail c 0 first (wrap size (tail + k)) k
        (omega (arith, before_end size tail clen k below))
        (omega (arith, before_end size tail clen k below))
        (omega (arith, before_end size tail clen k below)) in
    let tail_in : tail < size = ground (arith, ring.tail_at, ring.head_in, ring.room) in
    if_split (λ (w : Buffer × ℕ). IsContents w.0 (n + clen) (join n f c) × (w.1 ≡ clen))
      (first == clen)
      (λ e. (
        appended r n clen f c one (if tail + first == size then 0 else tail + first) contents room
            (tail_once size r.head r.len tail clen first ring.head_in ring.tail_at
              (omega (arith, count)) refl ((==_iff first clen).0 e))
            kept
            (λ k below.
              ap one (place k below) ∙ in_one k (omega (arith, below, (==_iff first clen).0 e))),
        refl,
      ))
      (λ e. (
        appended r n clen f c (memcpy one 0 c first (clen - first))
            ((if tail + first == size then 0 else tail + first) + (clen - first)) contents room
            (tail_twice size r.head r.len tail clen first ring.head_in ring.tail_at
              (omega (arith, count)) refl (λ same. ground (arith, e, same, ==_refl clen)))
            (λ k below.
              memcpy-out one 0 c first (clen - first) (wrap size (r.head + k))
                (inr (omega (arith, (old k below).1)))
              ∙ kept k below)
            (λ k below.
              ap (memcpy one 0 c first (clen - first)) (place k below)
              ∙ elim (Bool-cases (ltb k first)) [
                | inl early ↦
                    let fits = ltb→lt k first early in
                    memcpy-out one 0 c first (clen - first) (wrap size (tail + k))
                      (inr (omega (arith, room, before_end size tail clen k fits)))
                    ∙ in_one k fits
                | inr late ↦
                    let past =
                      past_end size tail clen k tail_in below (omega (arith, room))
                        (ground (arith, late)) in
                    memcpy-in one 0 c first (clen - first) (wrap size (tail + k)) k (omega arith)
                      (omega (arith, past.0)) past.1
              ]),
        refl,
      ))

-- In a consistent buffer, which keeps a free place, writing puts the bytes behind those that the buffer
-- holds, wherever the head is and whether the buffer grows or not, leaves a consistent buffer, and
-- returns their number.
pub write-IsContents :
    (b : Buffer) (n clen : ℕ) (f c : Memory)
    → IsContents b n f
    → IsContents (write b c clen).0 (n + clen) (join n f c) × ((write b c clen).1 ≡ clen)
unfolding write
write-IsContents b n clen f c contents =
    let reserved = reserve-IsContents b n (clen + b.len + 1) f contents in
    write_in-IsContents (reserve b (clen + b.len + 1)) n clen f c reserved.0
      (omega (arith, reserved.1, contents.count))
