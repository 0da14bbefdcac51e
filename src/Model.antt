-- ===== src/Model.antt =====
-- apps/job/internal/model: the persisted rows, in the children, and what they share.
--
-- Identities, counters and durations are natural numbers: a negative int64 is rejected by the same
-- `<= 0` tests as 0, which stands for both. The two retry settings of a snapshot keep their sign.
-- A time.Time is its number of nanoseconds since the zero time, so `IsZero` is the test for 0.
-- A UUID is its 128-bit value. An enum of int16 has one more constructor, for the unnamed values.
pub mod Task
pub mod Instance
pub mod Job
use Prim.Native.String.{String}
use dogx.Common.{ℕ, ◌==◌, Bool, true, false}

abbrev pub Time : Type 0
Time = ℕ

abbrev pub is_zero : Time → Bool
is_zero t = t == 0

-- time.Duration in nanoseconds.
abbrev pub second : ℕ
second = 1_000_000_000

-- A signed setting: `neg n` is -(n + 1).
pub data Signed : Type 0 where
  nonneg : ℕ → Signed
  neg : ℕ → Signed

abbrev pub is_neg : Signed → Bool
is_neg (nonneg n) = false
is_neg (neg n) = true

-- The stable reason codes; `other` is any further text.
pub data EndReason : Type 0 where
  success execution_failed dispatch_rejected result_unknown manual_stop instance_timeout : EndReason
  other : String → EndReason

-- The JSONB snapshot: its text, which is decoded where it is read.
abbrev pub Snapshot : Type 0
Snapshot = String
