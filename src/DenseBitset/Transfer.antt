-- ===== src/DenseBitset/Transfer.antt =====
-- `transfer_approximate_unsafe` of `dense_bitset`: words are moved from another bitset to this one.
pub mod Round
pub mod Moved
pub mod Total
use Prim.Native.Nat.{bit_or}
use graphlabapi_graphlab.Prelude.{
  ℕ, zero, suc, ◌+◌, ◌*◌, ◌/◌, ltb, leb, ◌==◌, if◌then◌else◌, Bool, true, false, not, ◌&&◌, Option,
  none, some,
}
use graphlabapi_graphlab.Prelude.Run.{Run, ok, fault, ◌>>=◌, ◌>>◌, assert}
use graphlabapi_graphlab.Prelude.Updates.{update}
use graphlabapi_graphlab.DenseBitset.{Bitset, arrpos, ones}

-- The variables of the loop, with the words of both bitsets.
pub record Moving : Type 0 where
  pub at : ℕ
  pub transferred : ℕ
  pub mine : ℕ → ℕ
  pub theirs : ℕ → ℕ

-- if (other.array[arrpos] > 0) ...
unfoldable pub move_word : Moving → Moving
move_word m =
    if ltb 0 (m.theirs m.at)
    then record m {
      transferred = m.transferred + ones 64 (m.theirs m.at);
      mine = update m.mine m.at (bit_or (m.mine m.at) (m.theirs m.at));
      theirs = update m.theirs m.at 0;
    }
    else m

-- `b` bits are wanted, the loop began at word `initial` of `n`; none if the fuel is out.
unfoldable pub transfer_loop : ℕ → ℕ → ℕ → ℕ → Moving → Option Moving
transfer_loop zero b initial n m = none
transfer_loop (suc fuel) b initial n m =
    let moved = move_word m in
    let after = m.at + 1 in
    let wraps = leb n after in
    let rest = transfer_loop fuel b initial n (record moved { at = if wraps then 0 else after }) in
    if not (ltb m.transferred b)
    then some m
    else (if not wraps && (after == initial) then some (record moved { at = after }) else rest)

pub record Transferred : Type 0 where
  pub start : ℕ
  pub b : ℕ
  pub this : Bitset
  pub other : Bitset

abbrev pub from_loop : Bitset → Bitset → Moving → Transferred
from_loop this other m = record {
  start = 64 * m.at;
  b = m.transferred;
  this = record this { array = m.mine };
  other = record other { array = m.theirs };
}

abbrev pub loop_result : Bitset → Bitset → Option Moving → Option Transferred
loop_result this other none = none
loop_result this other (some m) = some (from_loop this other m)

-- Without words, the loop reads out of bounds.
unfoldable pub transfer_approximate_unsafe : ℕ → Bitset → ℕ → ℕ → Bitset → Run (Option Transferred)
transfer_approximate_unsafe fuel other start b this =
    let initial = arrpos start in
    let first = if leb this.arrlen initial then 0 else initial in
    assert (other.len == this.len)
    >> assert (other.arrlen == this.arrlen)
    >> assert (not ((this.arrlen == 0) && ltb 0 b))
    >> ok (
        loop_result this other (
          transfer_loop fuel b initial this.arrlen
            record { at = first; transferred = 0; mine = this.array; theirs = other.array }))
