-- ===== src/Guardian/Execute.antt =====
-- scripts/macos/bootmux-network-guardian.py, `ExecutionResult` and `execute_plan`.
pub mod Total
use bootmux.Base.{
  Bool, true, false, List, [], ◌∷◌, ◌++◌, String, ℤ, is_zero, strip, first_chars, if◌then◌else◌,
}
use bootmux.Guardian.Data.{Command, RepairPlan}
use bootmux.Guardian.Host.{Host, Reply}

-- The dict that is appended to `failures`.
pub record Failure : Type 0 where
  pub argv : List String
  pub step : String
  pub returncode : ℤ
  pub stderr : String

pub record ExecutionResult : Type 0 where
  pub executed : List Command
  pub failures : List Failure
  pub ok : Bool

abbrev pub nothing_executed : ExecutionResult
nothing_executed = record { executed = []; failures = []; ok = true }

abbrev failure : Command → Reply → Failure
failure c r = record {
  argv = c.argv;
  step = c.step;
  returncode = r.returncode;
  stderr = first_chars 500 (strip r.stderr);
}

-- What the loop does with the reply to a command.
unfoldable pub tally : Command → Reply → ExecutionResult → ExecutionResult
tally c r result =
    if is_zero r.returncode
    then record result { executed = result.executed ++ (c ∷ []) }
    else record result { ok = false; failures = result.failures ++ (failure c r ∷ []) }

module _ (host : Host) where
  execute_from : List Command → ExecutionResult → host.State → ExecutionResult × host.State
  execute_from [] result s = (result, s)
  execute_from (c ∷ commands) result s =
      let (reply, s') = host.run c.argv s in execute_from commands (tally c reply result) s'

  unfoldable pub execute_plan : RepairPlan → host.State → ExecutionResult × host.State
  unfolding execute_from
  execute_plan plan s = execute_from plan.commands nothing_executed s
