-- ===== src/Shield/Journal/Entries.antt =====
-- What `record` adds to the journals.
use bootmux.Base.{◌≡◌, refl, sym, ap, ◌∙◌, suc, ℤ, Option, List, [], ◌∷◌, ◌++◌, map, String, ◌≢◌}
use bootmux.Base.Dict.{get_or-put_same, get_or-put_other}
use bootmux.Shield.Host.{Host}
use bootmux.Shield.Journal.{lines_of, entries, note}
use bootmux.Shield.Redact.{redact}
use bootmux.Shield.World.{Category, PreValue, Entry, Line, malformed, entry, Disk, World}

entries-append : (xs ys : List Line) → entries (xs ++ ys) ≡ entries xs ++ entries ys
unfolding entries
entries-append [] ys = refl
entries-append (malformed ∷ xs) ys = entries-append xs ys
entries-append (entry e ∷ xs) ys = ap (λ es. e ∷ es) (entries-append xs ys)

entries-line :
    (xs : List Line) (l : Line) → entries (xs ++ (l ∷ [])) ≡ entries xs ++ entries (l ∷ [])
entries-line xs l = entries-append xs (l ∷ [])

-- The entries that can be read in a session's journal.
abbrev pub journal : String → Disk → List Entry
journal session d = entries (lines_of session d)

module _ (host : Host) where
  -- The entry that `record` makes.
  abbrev pub entry_of : World host → Category → String → Option PreValue → List String → ℤ → Entry
  entry_of w category target pre cmd exit_code = record {
    seq = suc w.seq;
    category = category;
    target = target;
    pre_value = pre;
    cmd = map redact cmd;
    exit_code = exit_code;
  }

  pub note-journal :
      (session : String) (category : Category) (target : String) (pre : Option PreValue)
      (cmd : List String) (exit_code : ℤ) (w : World host)
      → journal session (note host session category target pre cmd exit_code w).1.disk
        ≡ journal session w.disk ++ (entry_of w category target pre cmd exit_code ∷ [])
  unfolding note entries
  note-journal session category target pre cmd exit_code w =
      let line = entry (entry_of w category target pre cmd exit_code) in
      let old = lines_of session w.disk in
      ap entries (get_or-put_same [] session (old ++ (line ∷ [])) w.disk.journals)
      ∙ entries-line old line

  -- record appends to the journal of its session the entry that has the next number, its arguments and
  -- the command redacted, after what could be read there, and the other journals stay as they were.
  pub journal-note :
      (session other_session : String) (category : Category) (target : String)
      (pre : Option PreValue) (cmd : List String) (exit_code : ℤ) (w : World host)
      → other_session ≢ session
      → let (_, w') = note host session category target pre cmd exit_code w in
        (journal session w'.disk
          ≡ journal session w.disk ++ (entry_of w category target pre cmd exit_code ∷ []))
        × (w'.seq ≡ suc w.seq)
        × (lines_of other_session w'.disk ≡ lines_of other_session w.disk)
  unfolding note
  journal-note session other_session category target pre cmd exit_code w apart =
      let line = entry (entry_of w category target pre cmd exit_code) in
      (
        note-journal session category target pre cmd exit_code w,
        refl,
        get_or-put_other [] other_session session (lines_of session w.disk ++ (line ∷ []))
            w.disk.journals (λ e. apart (sym e)),
      )
