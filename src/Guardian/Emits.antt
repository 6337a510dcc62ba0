-- ===== src/Guardian/Emits.antt =====
-- What the commands of a plan have in common, with a rule for each way in which the planners of
-- scripts/macos/bootmux-network-guardian.py put a plan together.
use bootmux.Base.{
  ◌≡◌, refl, Bool, true, false, Option, none, some, [], ◌∷◌, String, if◌then◌else◌, All, All-append,
  All-mono,
}
use bootmux.Guardian.Data.{Command, RepairPlan, add, note, empty_plan}

pub record Emits (P : Command → Type 0) (plan : RepairPlan) : Type 0 where
  pub each : All P plan.commands

module _ (P : Command → Type 0) where
  pub Emits-empty : Emits P empty_plan
  Emits-empty = record { each = tt }

  pub Emits-note : (n : String) {plan : RepairPlan} → Emits P plan → Emits P (note n plan)
  Emits-note n h = record { each = h.each }

  pub Emits-add : (c : Command) (plan : RepairPlan) → P c → Emits P plan → Emits P (add c plan)
  Emits-add c plan p h = record { each = All-append P plan.commands (c ∷ []) h.each (p, tt) }

  pub Emits-if :
      (test : Bool) {yes_plan no_plan : RepairPlan}
      → (test ≡ true → Emits P yes_plan)
      → (test ≡ false → Emits P no_plan)
      → Emits P (if test then yes_plan else no_plan)
  Emits-if true f g = f refl
  Emits-if false f g = g refl

  -- A branch on a value that may be missing.
  pub Emits-option :
      {A : Type 0} (o : Option A) {absent : RepairPlan} {present : A → RepairPlan}
      → Emits P absent
      → ((a : A) → o ≡ some a → Emits P (present a))
      → Emits P (elim o [ none ↦ absent | some a ↦ present a ])
  Emits-option none f g = f
  Emits-option (some a) f g = g a refl

pub Emits-mono :
    (P Q : Command → Type 0) {plan : RepairPlan}
    → ((c : Command) → P c → Q c)
    → Emits P plan
    → Emits Q plan
Emits-mono P Q f h = record { each = All-mono P Q _ f h.each }
