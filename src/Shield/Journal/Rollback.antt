-- ===== src/Shield/Journal/Rollback.antt =====
-- What `rollback` runs, and when it restores the Mac.
use bootmux.Base.{
  ◌≡◌, refl, sym, ap, ◌∙◌, true, false, Option, none, some, List, [], ◌∷◌, ◌++◌, String, All, arith,
  is_zero, if◌then◌else◌,
}
use mathlib.Core.List.{reverse}
use bootmux.Shield.Host.{Host}
use bootmux.Shield.Journal.{
  lines_of, entries, undo, issue_of, rollback_entry, rollback_from, rollback,
}
use bootmux.Shield.World.{PreValue, Entry, World}

-- The command that undoes an entry: none where the mutation failed or its pre-value is unknown.
abbrev pub undo_of : Entry → Option (List String)
undo_of e =
    if is_zero e.exit_code
    then (elim e.pre_value [ none ↦ none | some pre ↦ undo e.category e.target pre ])
    else none

undo_of_failed : (e : Entry) → is_zero e.exit_code ≡ false → undo_of e ≡ none
undo_of_failed e bad = ground arith

-- The issue of an entry: that of a mutation that succeeded from an unknown pre-value.
abbrev pub issues_of : Entry → List String
issues_of e =
    if is_zero e.exit_code
    then (elim e.pre_value [ none ↦ issue_of e ∷ [] | some pre ↦ [] ])
    else []

abbrev prepend {ℓ} : {A : Type ℓ} → Option A → List A → List A
prepend none xs = xs
prepend (some x) xs = x ∷ xs

abbrev pub undos : List Entry → List (List String)
undos [] = []
undos (e ∷ es) = prepend (undo_of e) (undos es)

abbrev pub all_issues : List Entry → List String
all_issues [] = []
all_issues (e ∷ es) = issues_of e ++ all_issues es

issues_of_failed : (e : Entry) → is_zero e.exit_code ≡ false → issues_of e ≡ []
issues_of_failed e bad = ground arith

issues_of_known : (e : Entry) {pre : PreValue} → e.pre_value ≡ some pre → issues_of e ≡ []
issues_of_known e known = ground arith

module _ (host : Host) where
  abbrev pub run_all : List (List String) → host.Mac → host.Mac
  run_all [] m = m
  run_all (cmd ∷ cmds) m = run_all cmds (host.run cmd m).1

  abbrev pub run_option : Option (List String) → host.Mac → host.Mac
  run_option none m = m
  run_option (some cmd) m = (host.run cmd m).1

  -- The Mac once the entry is undone.
  abbrev pub undone : Entry → host.Mac → host.Mac
  undone e m = run_option (undo_of e) m

  rollback_entry_lem :
      (e : Entry) (w : World host)
      → rollback_entry host e w ≡ (issues_of e, record w { mac = undone e w.mac })
  unfolding rollback_entry
  rollback_entry_lem e w = ground arith

  run_all-prepend :
      (o : Option (List String)) (cmds : List (List String)) (m : host.Mac)
      → run_all cmds (run_option o m) ≡ run_all (prepend o cmds) m
  run_all-prepend none cmds m = refl
  run_all-prepend (some cmd) cmds m = refl

  undone-run_all :
      (e : Entry) (es : List Entry) (m : host.Mac)
      → run_all (undos es) (undone e m) ≡ run_all (undos (e ∷ es)) m
  undone-run_all e es m = run_all-prepend (undo_of e) (undos es) m

  rollback_from_lem :
      (es : List Entry) (w : World host)
      → rollback_from host es w ≡ (all_issues es, record w { mac = run_all (undos es) w.mac })
  unfolding rollback_from
  rollback_from_lem [] w = refl
  rollback_from_lem (e ∷ es) w =
      rw (rollback_entry_lem e w, rollback_from_lem es)
        (ap (λ m. (issues_of e ++ all_issues es, record w { mac = m })) (undone-run_all e es w.mac))

  -- rollback undoes the session's journal from its last entry to its first: it runs the undoing
  -- command of each mutation that succeeded from a known pre-value, reports each that succeeded from
  -- an unknown one, runs nothing else, and leaves the files as they were.
  pub rollback_lem :
      (session : String) (w : World host)
      → let newest = reverse (entries (lines_of session w.disk)) in
        rollback host session w
        ≡ (all_issues newest, record w { mac = run_all (undos newest) w.mac })
  unfolding rollback
  rollback_lem session w = rollback_from_lem (reverse (entries (lines_of session w.disk))) w

  -- How the Mac came from `m` to `n`, as the entries of a journal tell it, the newest first. `view` is
  -- what is looked at.
  module _ {V : Type 0} (view : host.Mac → V) where
    pub data Made : List Entry → host.Mac → host.Mac → Type 0 where
      start : {m n : host.Mac} → view n ≡ view m → Made [] m n
      failed :
          {e : Entry} {es : List Entry} {m n o : host.Mac}
          → Made es m n
          → is_zero e.exit_code ≡ false
          → view o ≡ view n
          → Made (e ∷ es) m o
      changed :
          {e : Entry} {es : List Entry} {m n o : host.Mac} (pre : PreValue)
          → Made es m n
          → is_zero e.exit_code ≡ true
          → e.pre_value ≡ some pre
          → view (undone e o) ≡ view n
          → Made (e ∷ es) m o

    -- A command's effect on the view depends on the view alone.
    abbrev pub Respects : List String → Type 0
    Respects cmd =
        (m n : host.Mac) → view m ≡ view n → view (host.run cmd m).1 ≡ view (host.run cmd n).1

    run_all-view :
        (cmds : List (List String)) (m n : host.Mac)
        → All Respects cmds
        → view m ≡ view n
        → view (run_all cmds m) ≡ view (run_all cmds n)
    run_all-view [] m n r h = h
    run_all-view (cmd ∷ cmds) m n (r, rs) h = run_all-view cmds _ _ rs (r m n h)

    Respects-rest :
        (o : Option (List String)) (cmds : List (List String))
        → All Respects (prepend o cmds)
        → All Respects cmds
    Respects-rest none cmds r = r
    Respects-rest (some cmd) cmds (r, rs) = rs

    Made-undone :
        {es : List Entry} {m n : host.Mac}
        → All Respects (undos es)
        → Made es m n
        → (view (run_all (undos es) n) ≡ view m) × (all_issues es ≡ [])
    Made-undone r (start e) = (e, refl)
    Made-undone r (failed {e} {es} {n} {o} made bad same) =
        let rs = Respects-rest (undo_of e) (undos es) r in
        let (back, none_left) = Made-undone rs made in
        (
          ap view (sym (undone-run_all e es o))
              ∙ run_all-view (undos es) _ _ rs
                  (ap view (ap (λ o'. run_option o' o) (undo_of_failed e bad)) ∙ same)
              ∙ back,
          rw (issues_of_failed e bad) none_left,
        )
    Made-undone r (changed {e} {es} {n} {o} pre made good known same) =
        let rs = Respects-rest (undo_of e) (undos es) r in
        let (back, none_left) = Made-undone rs made in
        (
          ap view (sym (undone-run_all e es o)) ∙ run_all-view (undos es) _ _ rs same ∙ back,
          rw (issues_of_known e known) none_left,
        )

    -- It is supposed that the effect of each undoing command on the view depends on the view alone, and
    -- that every mutation in the journal either failed and left the view, or succeeded, has its
    -- pre-value, and its undoing command, run at once, brings back the view from before it. Then
    -- rollback, which runs these commands only at the end, brings the view back to what it was at the
    -- journal's start, without an issue, and leaves the files as they were.
    pub rollback-restores :
        (session : String) (w : World host) {m : host.Mac}
        → let newest = reverse (entries (lines_of session w.disk)) in
          All Respects (undos newest)
          → Made newest m w.mac
          → let (issues, w') = rollback host session w in
            (issues ≡ []) × (view w'.mac ≡ view m) × (w'.disk ≡ w.disk)
    rollback-restores session w r made =
        let (back, none_left) = Made-undone r made in rw rollback_lem (none_left, back, refl)
