-- ===== src/Shield/Fingerprint/Files.antt =====
-- The shield's own files in a fingerprint.
use bootmux.Base.{
  ◌≡◌, refl, sym, ap, ◌∙◌, Bool, true, false, not, List, [], ◌∷◌, ◌++◌, String, contains,
  same_texts-eq, is_empty, map, filter, All, Bool-cases, inl, inr, if◌then◌else◌,
}
use bootmux.Shield.Fingerprint.{
  compare_fingerprints, shield_files_of, state_file_path, state_exists, agreements, launchd_plist,
  installed_shield,
}
use bootmux.Shield.World.{Fingerprint, StateFile, missing, corrupt, stored, Disk}

agreements_lem :
    (xs : List (String × Bool))
    → is_empty (map (λ (e : String × Bool). e.0) (filter (λ e. not e.1) xs)) ≡ true
    → All (λ e. e.1 ≡ true) xs
agreements_lem [] h = tt
agreements_lem ((key, true) ∷ xs) h = (refl, agreements_lem xs h)
agreements_lem ((key, false) ∷ xs) h = cc

true_ne_false : true ≡ false → ⊥
true_ne_false e = cc

-- Equal fingerprints have the same files.
compare-shield_files :
    (a b : Fingerprint)
    → is_empty (compare_fingerprints a b) ≡ true
    → a.shield_files ≡ b.shield_files
unfolding compare_fingerprints
compare-shield_files a b h =
    same_texts-eq a.shield_files b.shield_files
      (agreements_lem (agreements a b) h).1.1.1.1.1.1.1.1.1.0

files_contain :
    (plist installed : Bool) (f : StateFile)
    → contains state_file_path (
        (if plist then launchd_plist ∷ [] else [])
        ++ (if installed then installed_shield ∷ [] else [])
        ++ (if state_exists f then state_file_path ∷ [] else []))
      ≡ state_exists f
files_contain true true missing = refl
files_contain true true corrupt = refl
files_contain true true (stored s) = refl
files_contain true false missing = refl
files_contain true false corrupt = refl
files_contain true false (stored s) = refl
files_contain false true missing = refl
files_contain false true corrupt = refl
files_contain false true (stored s) = refl
files_contain false false missing = refl
files_contain false false corrupt = refl
files_contain false false (stored s) = refl

-- The state file is among the shield's files where it exists.
pub contains-state_file :
    (d : Disk) → contains state_file_path (shield_files_of d) ≡ state_exists d.state_file
contains-state_file d = files_contain d.plist d.installed d.state_file

-- Fingerprints of which one lists the state file differ.
pub differs_in_files :
    (fp after : Fingerprint) (d : Disk)
    → contains state_file_path fp.shield_files ≡ false
    → after.shield_files ≡ shield_files_of d
    → state_exists d.state_file ≡ true
    → is_empty (compare_fingerprints fp after) ≡ false
differs_in_files fp after d out listed there =
    elim (Bool-cases (is_empty (compare_fingerprints fp after))) [
      | inl same ↦
          elim (true_ne_false (
            sym there
            ∙ sym (contains-state_file d)
            ∙ ap (contains state_file_path) (sym listed ∙ sym (compare-shield_files fp after same))
            ∙ out)) [ ]
      | inr apart ↦ apart
    ]
