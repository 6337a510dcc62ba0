-- ===== src/Runner/Shield.antt =====
-- scripts/macos/bootmux-safe-flash-runner.py: the steps that call the attach shield, and the
-- fingerprints that it takes. Where the source goes through a set of keys, in no fixed order, this
-- goes through the keys of the first fingerprint and then the rest of the second.
use bootmux.Base.{
  Bool, true, false, not, ◌&&◌, Option, none, some, List, [], ◌∷◌, ◌++◌, map, String, ◌<>◌, ◌==◌,
  contains, filter, first_chars, is_empty, is_zero, join, length, same_text, show_ℕ, text_in,
  if◌then◌else◌,
}
use bootmux.Runner.Data.{
  flag, count, code, text, texts, Fingerprint, Bench, Runner, log, ttl_seconds, Outcome, green,
  green_dry_run, yellow, red, red_because,
}

abbrev pub ok_or : Bool → String → String
ok_or test other = if test then "OK" else other

value_of : String → Fingerprint → Option String
value_of key [] = none
value_of key ((k, v) ∷ fp) = let rest = value_of key fp in if k == key then some v else rest

-- The keys on which two fingerprints differ.
unfoldable pub differences : Fingerprint → Fingerprint → List String
unfolding value_of
differences pre post =
    let keys = map (λ e. e.0) pre in
    filter (λ k. not (same_text (value_of k pre) (value_of k post)))
      (keys ++ filter (λ k. not (contains k keys)) (map (λ e. e.0) post))

abbrev pub expected_keys : List String
expected_keys = "shield_files" ∷ "routes" ∷ []

-- An empty fingerprint counts as none.
abbrev pub given : Option Fingerprint → Option Fingerprint
given none = none
given (some []) = none
given (some (e ∷ fp)) = some (e ∷ fp)

module _ (bench : Bench) where
  abbrev pub Step : Type 0
  Step = Runner → bench.State → Outcome × Runner × bench.State

  -- `shield_is_armed`
  unfoldable pub shield_is_armed : bench.State → Bool × bench.State
  shield_is_armed s =
      let ((rc, out), s') = bench.run_shield ("--status" ∷ []) true s in
      (text_in "STATUS=ARMED" out, s')

  -- The second call, where the first has failed.
  unfoldable pub fingerprint_output : bench.State → String × bench.State
  fingerprint_output s =
      let ((rc, out), s') = bench.run_shield ("--fingerprint" ∷ []) false s in
      let ((rc2, out2), s2) = bench.run_shield ("--fingerprint" ∷ []) false s' in
      if is_zero rc then (out, s') else (out2, s2)

  unfoldable pub step_pre_fingerprint : Step
  unfolding fingerprint_output
  step_pre_fingerprint r s =
      let (out, s') = fingerprint_output s in
      elim (bench.json_fingerprint out) [
        | none ↦ (red, log "PRE_FINGERPRINT" (("error", text "parse failed") ∷ []) "RED" r, s')
        | some fp ↦ (
          green,
          log "PRE_FINGERPRINT" (("keys", count (length fp)) ∷ []) "OK"
              (record r { pre_fingerprint = some fp }),
          s',
        )
      ]

  unfoldable pub step_post_fingerprint : Step
  step_post_fingerprint r s =
      let ((rc, out), s') = bench.run_shield ("--fingerprint" ∷ []) false s in
      elim (bench.json_fingerprint out) [
        | none ↦ (red, log "POST_FINGERPRINT" (("error", text "parse failed") ∷ []) "RED" r, s')
        | some fp ↦ (
          green,
          log "POST_FINGERPRINT" (("keys", count (length fp)) ∷ []) "OK"
              (record r { post_fingerprint = some fp }),
          s',
        )
      ]

  unfoldable pub compare : Fingerprint → Fingerprint → Runner → Outcome × Runner
  unfolding differences
  compare pre post r =
      let diffs = differences pre post in
      let unexpected = filter (λ d. not (contains d expected_keys)) diffs in
      (
        if is_empty unexpected
            then green
            else red_because ("UNEXPECTED_DIFFS:" <> join ", " unexpected),
        log "FINGERPRINT_COMPARE"
            (("diffs", texts diffs)
              ∷ ("unexpected", texts unexpected)
              ∷ ("match", flag (is_empty unexpected))
              ∷ [])
            (ok_or (is_empty unexpected) "RED") r,
      )

  unfoldable pub step_fingerprint_compare : Step
  unfolding compare
  step_fingerprint_compare r s = elim (given r.pre_fingerprint) [
    | none ↦ (red_because "MISSING_FINGERPRINTS", r, s)
    | some pre ↦ elim (given r.post_fingerprint) [
      | none ↦ (red_because "MISSING_FINGERPRINTS", r, s)
      | some post ↦ let (o, r') = compare pre post r in (o, r', s)
    ]
  ]

  unfoldable pub step_shield_install : Step
  step_shield_install r s =
      let (proc, s') = bench.install s in
      let ok = is_zero proc.returncode in
      if r.dry_run
      then (green_dry_run, log "SHIELD_INSTALL" (("dry_run", flag true) ∷ []) "OK" r, s)
      else (
        if ok then green else red,
        log "SHIELD_INSTALL" (("ok", flag ok) ∷ ("output", text (first_chars 500 proc.stdout)) ∷ [])
            (ok_or ok "RED") r,
        s',
      )

  unfoldable pub step_shield_arm : Step
  step_shield_arm r s =
      let ((rc, out), s') = bench.run_shield ("--arm" ∷ "--ttl" ∷ show_ℕ ttl_seconds ∷ []) true s in
      let ok = is_zero rc && text_in "CLASSIFICATION=GREEN" out in
      if r.dry_run
      then (
        green_dry_run,
        log "SHIELD_ARM" (("dry_run", flag true) ∷ ("ttl", count ttl_seconds) ∷ []) "OK" r,
        s,
      )
      else (
        if ok then green else red,
        log "SHIELD_ARM"
            (("ok", flag ok)
              ∷ ("ttl", count ttl_seconds)
              ∷ ("output", text (first_chars 500 out))
              ∷ [])
            (ok_or ok "RED") r,
        s',
      )

  unfoldable pub step_shield_close : Step
  step_shield_close r s =
      let ((rc, out), s') = bench.run_shield ("--close-session" ∷ []) true s in
      if r.dry_run
      then (green_dry_run, log "SHIELD_CLOSE" (("dry_run", flag true) ∷ []) "OK" r, s)
      else (
        if is_zero rc then green else yellow,
        log "SHIELD_CLOSE" (("rc", code rc) ∷ ("output", text (first_chars 500 out)) ∷ [])
            (ok_or (is_zero rc) "WARN") r,
        s',
      )

  unfoldable pub step_shield_purge : Step
  step_shield_purge r s =
      let ((rc, out), s') = bench.run_shield ("--uninstall" ∷ "--purge" ∷ []) true s in
      let ok = is_zero rc && text_in "PURGE=OK" out in
      if r.dry_run
      then (green_dry_run, log "SHIELD_PURGE" (("dry_run", flag true) ∷ []) "OK" r, s)
      else (
        if ok then green else red,
        log "SHIELD_PURGE" (("ok", flag ok) ∷ ("output", text (first_chars 500 out)) ∷ [])
            (ok_or ok "RED") r,
        s',
      )
