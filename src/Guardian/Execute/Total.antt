-- ===== src/Guardian/Execute/Total.antt =====
-- `execute_plan` against the plain run of a list of commands.
use bootmux.Base.{
  ◌≡◌, refl, sym, ap, ◌∙◌, Bool, true, false, not, ◌&&◌, List, [], ◌∷◌, ◌++◌, map, filter, arith,
  is_empty, is_zero, String, ℤ, Bool-cases, inl, inr,
}
use mathlib.Core.List.{append_assoc, append-nil, map-append}
use bootmux.Guardian.Data.{Command, RepairPlan}
use bootmux.Guardian.Execute.{
  Failure, ExecutionResult, nothing_executed, tally, execute_from, execute_plan,
}
use bootmux.Guardian.Host.{Host, Reply}

-- A command with what it returned.
abbrev pub Run : Type 0
Run = Command × ℤ

abbrev pub succeeded : Run → Bool
succeeded (c, code) = is_zero code

abbrev pub executed_of : List Run → List Command
executed_of runs = map (λ e. e.0) (filter succeeded runs)

-- What is told of the commands that failed: their words, their steps and what they returned.
abbrev pub failures_of : List Run → List (List String × String × ℤ)
failures_of runs = map (λ e. (e.0.argv, e.0.step, e.1)) (filter (λ e. not (succeeded e)) runs)

abbrev pub told : List Failure → List (List String × String × ℤ)
told failures = map (λ f. (f.argv, f.step, f.returncode)) failures

abbrev pub all_succeeded : List Run → Bool
all_succeeded runs = is_empty (filter (λ e. not (succeeded e)) runs)

executed_of_cons :
    (e : Run) (rs : List Run) → executed_of (e ∷ []) ++ executed_of rs ≡ executed_of (e ∷ rs)
executed_of_cons e rs = ground arith

failures_of_cons :
    (e : Run) (rs : List Run) → failures_of (e ∷ []) ++ failures_of rs ≡ failures_of (e ∷ rs)
failures_of_cons e rs = ground arith

all_succeeded_cons :
    (b : Bool) (e : Run) (rs : List Run)
    → (b && all_succeeded (e ∷ []) && all_succeeded rs) ≡ (b && all_succeeded (e ∷ rs))
all_succeeded_cons b e rs = ground arith

told-append : (fs gs : List Failure) → told (fs ++ gs) ≡ told fs ++ told gs
told-append fs gs = map-append _ fs gs

-- One round of the loop, by what the command returned.
record Tallied (c : Command) (r : Reply) (old new : ExecutionResult) : Type 0 where
  executed : new.executed ≡ old.executed ++ executed_of ((c, r.returncode) ∷ [])
  failures : told new.failures ≡ told old.failures ++ failures_of ((c, r.returncode) ∷ [])
  ok : new.ok ≡ (old.ok && all_succeeded ((c, r.returncode) ∷ []))

and_true : (b : Bool) → b ≡ (b && true)
and_true true = refl
and_true false = refl

and_false : (b : Bool) → false ≡ (b && false)
and_false true = refl
and_false false = refl

tally-Tallied : (c : Command) (r : Reply) (old : ExecutionResult) → Tallied c r old (tally c r old)
unfolding tally
tally-Tallied c r old = elim (Bool-cases (is_zero r.returncode)) [
  | inl zero_status ↦ rw (zero_status) (record {
    executed = rw zero_status refl;
    failures = rw zero_status (sym (append-nil (told old.failures)));
    ok = rw zero_status (and_true old.ok);
  })
  | inr other_status ↦ rw (other_status) (record {
    executed = rw other_status (sym (append-nil old.executed));
    failures = rw other_status (told-append old.failures _);
    ok = rw other_status (and_false old.ok);
  })
]

module _ (host : Host) where
  -- The commands run one after the other, whatever they return.
  abbrev pub run_all : List Command → host.State → host.State
  run_all [] s = s
  run_all (c ∷ commands) s = run_all commands (host.run c.argv s).1

  -- What each command returns on the way.
  abbrev pub runs : List Command → host.State → List Run
  runs [] s = []
  runs (c ∷ commands) s =
      let (reply, s') = host.run c.argv s in (c, reply.returncode) ∷ runs commands s'

  -- The report of a run of commands, behind an earlier one.
  abbrev Reported : ExecutionResult → List Run → ExecutionResult → Type 0
  Reported old rs new =
      (new.executed ≡ old.executed ++ executed_of rs)
      × (told new.failures ≡ told old.failures ++ failures_of rs)
      × (new.ok ≡ (old.ok && all_succeeded rs))

  execute_from-total :
      (commands : List Command) (old : ExecutionResult) (s : host.State)
      → let (r, s') = execute_from host commands old s in
        (s' ≡ run_all commands s) × Reported old (runs commands s) r
  unfolding execute_from
  execute_from-total [] old s =
      (refl, (sym (append-nil old.executed), sym (append-nil (told old.failures)), and_true old.ok))
  execute_from-total (c ∷ commands) old s =
      let (reply, s') = host.run c.argv s in
      let first = tally-Tallied c reply old in
      let rest = runs commands s' in
      let e : Run = (c, reply.returncode) in
      let (same, (executed, failures, ok)) = execute_from-total commands (tally c reply old) s' in
      (
        same,
        (
          executed
              ∙ ap (λ xs. xs ++ executed_of rest) first.executed
              ∙ append_assoc old.executed _ _
              ∙ ap (λ xs. old.executed ++ xs) (executed_of_cons e rest),
          failures
              ∙ ap (λ xs. xs ++ failures_of rest) first.failures
              ∙ append_assoc (told old.failures) _ _
              ∙ ap (λ xs. told old.failures ++ xs) (failures_of_cons e rest),
          ok ∙ ap (λ b. b && all_succeeded rest) first.ok ∙ all_succeeded_cons old.ok e rest,
        ),
      )

  -- execute_plan runs every command of the plan in order, also behind a command that fails. It reports
  -- as executed exactly those that returned 0, in order, and as failures exactly the others, in order,
  -- with their words, their steps and what they returned; and it is ok exactly when none failed.
  pub execute_plan-total :
      (plan : RepairPlan) (s : host.State)
      → let (r, s') = execute_plan host plan s in
        (s' ≡ run_all plan.commands s)
        × (r.executed ≡ executed_of (runs plan.commands s))
        × (told r.failures ≡ failures_of (runs plan.commands s))
        × (r.ok ≡ all_succeeded (runs plan.commands s))
  unfolding execute_plan
  execute_plan-total plan s =
      let (same, (executed, failures, ok)) = execute_from-total plan.commands nothing_executed s in
      (same, executed, failures, ok)
