-- ===== src/CircularCharBuffer.antt =====
-- src/graphlab/util/circular_char_buffer.cpp and .hpp: a ring of bytes that grows when it is full. Memory is
-- a function of the offset, a pointer into the buffer is an offset, and lengths are not negative.
pub mod Ring
pub mod Reserve
pub mod Write
pub mod Read
pub mod Window
pub mod Align
use graphlabapi_graphlab.Prelude.{
  ℕ, ◌+◌, ◌-◌, ◌%◌, min, max, Bool, true, false, ◌&&◌, Option, none, some, leb, ltb, ◌==◌,
  if◌then◌else◌,
}

abbrev pub Memory : Type 0
Memory = ℕ → ℕ

-- `memcpy(dst + at, src + start, n)`, and `memmove` where both are one buffer.
unfoldable pub memcpy : Memory → ℕ → Memory → ℕ → ℕ → Memory
memcpy dst at src start n j = if leb at j && ltb j (at + n) then src (start + (j - at)) else dst j

pub record Buffer : Type 0 where
  pub buffer : Memory
  pub head : ℕ
  pub tail : ℕ
  pub bufsize : ℕ
  pub len : ℕ

unfoldable pub new : Memory → ℕ → Buffer
new malloc initial = record {
  buffer = malloc;
  head = 0;
  tail = 0;
  bufsize = max initial 4;
  len = 0;
}

unfoldable pub clear : Buffer → Buffer
clear b = record b { head = 0; tail = 0; len = 0 }

-- The bytes that are read, after those that were at the pointer, and their number.
unfoldable pub peek : Buffer → Memory → ℕ → Memory × ℕ
unfolding memcpy
peek b c clen =
    let readlen = min clen b.len in
    let firstcopy = min (b.bufsize - b.head) readlen in
    let first = memcpy c 0 b.buffer b.head firstcopy in
    let secondcopy = min b.tail (readlen - firstcopy) in
    if readlen == 0
    then (c, 0)
    else (if firstcopy == readlen
        then (first, readlen)
        else (memcpy first firstcopy b.buffer 0 secondcopy, readlen))

-- `reserve` with the bytes that `realloc` adds left as they were in the function.
unfoldable pub reserve : Buffer → ℕ → Buffer
unfolding memcpy
reserve b wanted =
    let s = if leb wanted 4 then 4 else wanted in
    let excess = s - b.bufsize in
    let movebytes = min b.tail excess in
    let copied = memcpy b.buffer b.bufsize b.buffer 0 movebytes in
    if leb s b.bufsize
    then b
    else (if leb b.head b.tail then record b { bufsize = s } else record b {
      buffer = memcpy copied 0 copied movebytes (b.tail - movebytes);
      bufsize = s;
      tail = (b.head + b.len) % s;
    })

unfoldable pub squeeze : (malloc : Memory) → Buffer → Buffer
unfolding memcpy peek
squeeze malloc b =
    let efflen = max (b.len + 1) 4 in
    let moved = if ltb 0 b.head then memcpy b.buffer 0 b.buffer b.head b.len else b.buffer in
    if leb b.bufsize 4 then b else record b {
      buffer = if leb b.head b.tail then moved else (peek b malloc b.len).0;
      head = 0;
      tail = b.len;
      bufsize = efflen;
    }

unfoldable pub align : (malloc : Memory) → Buffer → Buffer
unfolding memcpy peek
align malloc b =
    let moved = if ltb 0 b.head then memcpy b.buffer 0 b.buffer b.head b.len else b.buffer in
    record b {
      buffer = if leb b.head b.tail then moved else (peek b malloc b.len).0;
      head = 0;
      tail = b.len;
    }

abbrev pub align_requires_alloc : Buffer → Bool
align_requires_alloc b = if leb b.head b.tail then false else true

unfoldable pub skip : Buffer → ℕ → Buffer × ℕ
skip b clen =
    let readlen = min clen b.len in
    let head = b.head + readlen in
    (
      record b {
        head = if leb b.bufsize head then head - b.bufsize else head;
        len = b.len - readlen;
      },
      readlen,
    )

-- The result -1 of an empty buffer is `none`.
unfoldable pub read : Buffer → Memory → ℕ → Buffer × Memory × Option ℕ
unfolding peek skip
read b c clen =
    let (bytes, readlen) = peek b c clen in
    if b.len == 0 then (b, c, none) else ((skip b readlen).0, bytes, some readlen)

-- The overloads for strings, where `resize` fills with zeros.
unfoldable pub peek_string : Buffer → ℕ → Memory × ℕ
unfolding peek
peek_string b clen = peek b (λ _. 0) clen

unfoldable pub read_string : Buffer → ℕ → Buffer × Memory × Option ℕ
unfolding read
read_string b clen = read b (λ _. 0) clen

-- `write` once there is room.
unfoldable pub write_in : Buffer → Memory → ℕ → Buffer × ℕ
unfolding memcpy
write_in r c clen =
    let firstcopy = min clen (r.bufsize - r.tail) in
    let first = memcpy r.buffer r.tail c 0 firstcopy in
    let past = r.tail + firstcopy in
    let tail = if past == r.bufsize then 0 else past in
    let secondcopy = clen - firstcopy in
    if firstcopy == clen
    then (record r { buffer = first; tail = tail; len = r.len + clen }, clen)
    else (
      record r {
        buffer = memcpy first 0 c firstcopy secondcopy;
        tail = tail + secondcopy;
        len = r.len + clen;
      },
      clen,
    )

unfoldable pub write : Buffer → Memory → ℕ → Buffer × ℕ
unfolding reserve write_in
write b c clen = write_in (reserve b (clen + b.len + 1)) c clen

-- The copy constructor and the assignment.
unfoldable pub copy : (malloc : Memory) → Buffer → Buffer
unfolding peek
copy malloc src =
    let bufsize = max src.len 4 in
    record {
      buffer = (peek src malloc src.len).0;
      head = 0;
      tail = if src.len == bufsize then 0 else src.len;
      bufsize = bufsize;
      len = src.len;
    }

unfoldable pub assign : Buffer → Buffer → Buffer
unfolding clear reserve peek
assign b src =
    let r = reserve (clear b) src.len in
    record r {
      buffer = (peek src r.buffer src.len).0;
      tail = if src.len == r.bufsize then 0 else src.len;
      len = src.len;
    }

-- The bytes that lie in one piece from the head on.
abbrev pub contiguous : Buffer → ℕ
contiguous b = if ltb b.head b.tail then b.tail - b.head else b.bufsize - b.head

-- The pointer, which is NULL for `none`, and the length of the read.
unfoldable pub introspective_read : Buffer → Buffer × Option ℕ × ℕ
unfolding skip
introspective_read b =
    let readlen = contiguous b in
    if b.len == 0 then (b, none, 0) else ((skip b readlen).0, some b.head, readlen)

unfoldable pub introspective_must_read : Buffer → ℕ → Buffer × Option ℕ × Bool
unfolding skip
introspective_must_read b clen =
    if b.len == 0
    then (b, none, false)
    else (if leb clen (contiguous b)
        then ((skip b clen).0, some b.head, true)
        else (b, none, false))

unfoldable pub introspective_read_some : Buffer → ℕ → Buffer × Option ℕ × ℕ
unfolding skip
introspective_read_some b clen =
    let all = contiguous b in
    let readlen = if ltb clen all then clen else all in
    if b.len == 0 then (b, none, 0) else ((skip b readlen).0, some b.head, readlen)

unfoldable pub introspective_write : Buffer → ℕ × ℕ
introspective_write b =
    if leb b.head b.tail
    then (b.tail, b.bufsize - b.tail - (if b.head == 0 then 1 else 0))
    else (b.tail, b.head - b.tail - 1)

unfoldable pub advance_write : Buffer → ℕ → Buffer
advance_write b bytes =
    let tail = b.tail + bytes in
    record b { tail = if leb b.bufsize tail then tail - b.bufsize else tail; len = b.len + bytes }
