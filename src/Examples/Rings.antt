-- ===== src/Examples/Rings.antt =====
-- A buffer of four places whose two bytes go round its end.
use graphlabapi_graphlab.Prelude.{
  ℕ, zero, suc, ◌+◌, ◌-◌, ◌≤◌, ◌<◌, ◌≡◌, true, false, refl, arith, none, some, ◌==◌, if◌then◌else◌,
  leb, min,
}
use graphlabapi_graphlab.CircularCharBuffer.{
  Buffer, Memory, memcpy, write, read, peek, write_in, contiguous, introspective_read,
  introspective_must_read, introspective_read_some, introspective_write, advance_write, copy,
}
use graphlabapi_graphlab.CircularCharBuffer.Ring.{IsContents, join, over}
use graphlabapi_graphlab.CircularCharBuffer.Write.{write-IsContents}
use graphlabapi_graphlab.CircularCharBuffer.Read.{read-IsContents}
use graphlabapi_graphlab.CircularCharBuffer.Window.{
  introspective_read-IsContents, advance_write-IsContents,
}

abbrev places : Memory
places zero = 6
places (suc (suc (suc zero))) = 5
places _ = 0

abbrev two_bytes : Memory
two_bytes zero = 5
two_bytes (suc zero) = 6
two_bytes _ = 0

abbrev new_bytes : Memory
new_bytes k = 7 + k

abbrev zeros : Memory
zeros k = 0

abbrev ring : Buffer
ring = record { buffer = places; head = 3; tail = 1; bufsize = 4; len = 2 }

ring-IsContents : IsContents ring 2 two_bytes
ring-IsContents = record {
  ring = record { room = omega arith; head_in = omega arith; tail_at = refl };
  count = refl;
  bytes = elim [
    | zero ↦ λ _. refl
    | suc zero ↦ λ _. refl
    | suc (suc k) ↦ λ below. absurd (omega arith)
  ];
}

write-IsContents_example :
    IsContents (write ring new_bytes 3).0 (2 + 3) (join 2 two_bytes new_bytes)
    × ((write ring new_bytes 3).1 ≡ 3)
write-IsContents_example = write-IsContents ring 2 3 two_bytes new_bytes ring-IsContents

read-IsContents_example :
    ((peek ring zeros 1).1 ≡ min 1 2)
    × ((k : ℕ) → (peek ring zeros 1).0 k ≡ over (min 1 2) two_bytes zeros k)
    × IsContents (read ring zeros 1).0 (2 - min 1 2) (λ k. two_bytes (min 1 2 + k))
    × ((k : ℕ) → (read ring zeros 1).1 k ≡ over (min 1 2) two_bytes zeros k)
    × ((read ring zeros 1).2 ≡ (if 2 == 0 then none else some (min 1 2)))
read-IsContents_example = read-IsContents ring 2 1 two_bytes zeros ring-IsContents

introspective_read-IsContents_example :
    ((introspective_read_some ring 9).1 ≡ some ring.head)
    × ((introspective_read_some ring 9).2 ≡ min 9 (contiguous ring))
    × (1 ≤ contiguous ring)
    × (contiguous ring ≤ 2)
    × (ring.head + contiguous ring ≤ ring.bufsize)
    × ((k : ℕ) → k < contiguous ring → ring.buffer (ring.head + k) ≡ two_bytes k)
    × IsContents
        (introspective_read_some ring 9).0
        (2 - min 9 (contiguous ring))
        (λ k. two_bytes (min 9 (contiguous ring) + k))
    × (introspective_must_read ring 9 ≡ (
        if leb 9 (contiguous ring)
        then ((introspective_read_some ring 9).0, (introspective_read_some ring 9).1, true)
        else (ring, none, false)))
    × (introspective_read ring ≡ introspective_read_some ring (contiguous ring))
introspective_read-IsContents_example =
    introspective_read-IsContents ring 2 9 two_bytes ring-IsContents (omega arith)

ring_window : 1 ≤ (introspective_write ring).1
unfolding introspective_write
ring_window = omega arith

advance_write-IsContents_example :
    ((introspective_write ring).0 + (introspective_write ring).1 ≤ ring.bufsize)
    × IsContents
        (advance_write
          (record ring { buffer = memcpy ring.buffer (introspective_write ring).0 new_bytes 0 1 })
          1)
        (2 + 1)
        (join 2 two_bytes new_bytes)
advance_write-IsContents_example =
    advance_write-IsContents ring 2 1 two_bytes new_bytes ring-IsContents ring_window

-- A copy of four bytes is full, its tail at its head: what is written next goes over the first byte.
abbrev four : Buffer
four = record { buffer = λ k. k + 1; head = 0; tail = 4; bufsize = 8; len = 4 }

copy_overwritten :
    ((copy zeros four).buffer 0 ≡ 1) × ((write (copy zeros four) new_bytes 1).0.buffer 0 ≡ 7)
unfolding copy peek memcpy write write_in
copy_overwritten = (refl, refl)
