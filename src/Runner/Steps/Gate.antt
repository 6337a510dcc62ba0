-- ===== src/Runner/Steps/Gate.antt =====
-- What the gate before the flash lets through.
use bootmux.Base.{
  ◌≡◌, ◌↔◌, refl, ap, ◌∙◌, inl, inr, false, none, some, List, [], ◌∷◌, String, ◌<>◌, ◌==◌, eq_iff,
  All, Option-cases, Bool-cases,
}
use bootmux.Runner.Data.{Artifact, Manifest, Inspection, Bench, Runner, is_red}
use bootmux.Runner.Steps.{
  overall_of, missing, differs, first_mismatch, gate, gate_hashes, step_pre_flash_gate,
}

module _ (bench : Bench) where
  -- Every artifact's file has the manifest's hash.
  abbrev pub Intact : String → List Artifact → bench.State → Type 0
  Intact firmware artifacts s =
      All (λ a. bench.sha_of (firmware <> "/" <> a.path) s ≡ some a.sha256) artifacts

  first_mismatch-none :
      (firmware : String) (artifacts : List Artifact) (s : bench.State)
      → first_mismatch bench firmware artifacts s ≡ none
      → Intact firmware artifacts s
  unfolding first_mismatch
  first_mismatch-none firmware [] s h = tt
  first_mismatch-none firmware (a ∷ artifacts) s h =
      elim (Option-cases (bench.sha_of (firmware <> "/" <> a.path) s)) [
        | inl gone ↦ cc (rw (gone, first_mismatch) at h)
        | inr (actual, there) ↦ elim (Bool-cases (actual == a.sha256)) [
          | inl same ↦ (
            there ∙ ap some ((eq_iff _ _).0 same),
            first_mismatch-none firmware artifacts s (rw (there, same, first_mismatch) at h),
          )
          | inr other ↦ cc (rw (there, other, first_mismatch) at h)
        ]
      ]

  none-first_mismatch :
      (firmware : String) (artifacts : List Artifact) (s : bench.State)
      → Intact firmware artifacts s
      → first_mismatch bench firmware artifacts s ≡ none
  unfolding first_mismatch
  none-first_mismatch firmware [] s h = refl
  none-first_mismatch firmware (a ∷ artifacts) s (h, hs) =
      rw (h, first_mismatch, (eq_iff a.sha256 a.sha256).1 refl)
        (none-first_mismatch firmware artifacts s hs)

  gate_hashes_iff :
      (m : Manifest) (firmware : String) (r : Runner) (s : bench.State)
      → (is_red (gate_hashes bench m firmware r s).0 ≡ false) ↔ Intact firmware m.artifacts s
  unfolding gate_hashes is_red
  gate_hashes_iff m firmware r s =
      elim (Option-cases (first_mismatch bench firmware m.artifacts s)) [
        | inl clean ↦
            rw (clean, gate_hashes)
              (λ _. first_mismatch-none firmware m.artifacts s clean, λ _. refl)
        | inr (missing a, bad) ↦
            rw (bad, gate_hashes)
              (λ h. cc, λ h. let e = none-first_mismatch firmware m.artifacts s h in cc)
        | inr (differs a actual, bad) ↦
            rw (bad, gate_hashes)
              (λ h. cc, λ h. let e = none-first_mismatch firmware m.artifacts s h in cc)
      ]

  abbrev pub Inspected : bench.State → Type 0
  Inspected s =
      (i : Inspection) × (bench.json_inspection ((bench.inspect s).0).stdout ≡ some i)
      × (overall_of i ≡ "GREEN")

  -- With a manifest loaded, the gate before the flash is passed exactly when the inspector reports
  -- GREEN and, behind its run, every artifact's file is there with the manifest's hash.
  pub step_pre_flash_gate-passed_iff :
      (r : Runner) (s : bench.State) {m : Manifest} {firmware : String}
      → r.manifest ≡ some m
      → r.firmware ≡ some firmware
      → (is_red (step_pre_flash_gate bench r s).0 ≡ false)
        ↔ (Inspected s × Intact firmware m.artifacts (bench.inspect s).1)
  unfolding step_pre_flash_gate gate is_red
  step_pre_flash_gate-passed_iff r s {m} {firmware} hm hf =
      rw (hm, hf, step_pre_flash_gate)
        (elim (Option-cases (bench.json_inspection ((bench.inspect s).0).stdout)) [
          | inl broken ↦ rw (broken, gate) (λ h. cc, λ ((i, e, g), h). cc)
          | inr (i, read) ↦ elim (Bool-cases (overall_of i == "GREEN")) [
            | inl passed ↦
                let (to, from) = gate_hashes_iff m firmware r (bench.inspect s).1 in
                rw (read, gate, passed)
                  (λ h. ((i, refl, (eq_iff _ _).0 passed), to h), λ (_, h). from h)
            | inr refused ↦
                rw (read, gate, refused)
                  (
                    λ h. cc,
                    λ ((j, e, g), h).
                        let same : i ≡ j = cc in
                        let k = (eq_iff _ _).1 (ap overall_of same ∙ g) in cc,
                  )
          ]
        ])
