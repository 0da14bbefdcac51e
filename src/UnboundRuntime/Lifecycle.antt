-- ===== src/UnboundRuntime/Lifecycle.antt =====
-- taskrecovery/runtime.go: Start, Stop and the loop's own checks.
use dogx.Common.{if◌then◌else◌, ◌||◌, Bool, true, false, Option, none, some}

-- `cancelled` is `ctx.Err() != nil` of the runtime, `finished` the closed channel of Wait.
pub record Runtime : Type 0 where
  pub started : Bool
  pub stopped : Bool
  pub cancelled : Bool
  pub finished : Bool

abbrev pub new_runtime : Runtime
new_runtime = record { started = false; stopped = false; cancelled = false; finished = false }

-- `none` is the error of a repeated start.
unfoldable pub start : Runtime → Option Runtime
start r = if r.started || r.stopped then none else some (record r { started = true })

unfoldable pub stop : Runtime → Runtime
stop r = if r.stopped then r else record r {
  stopped = true;
  cancelled = true;
  finished = if r.started then r.finished else true;
}
