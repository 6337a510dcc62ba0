-- ===== src/Shield/Host.antt =====
-- scripts/macos/bootmux-attach-shield.py: `class Host` and `CommandResult`. The Mac is a state that
-- commands, sleep and time change; the files that the program itself writes are a record beside it,
-- each with what `json.loads` makes of its text.
use bootmux.Base.{ℕ, ℤ, Bool, List, [], ◌∷◌, String, is_zero, if◌then◌else◌}

pub record Reply : Type 0 where
  pub exit_code : ℤ
  pub stdout : String
  pub stderr : String

-- `r.exit_code == 0`
abbrev pub ok : Reply → Bool
ok r = is_zero r.exit_code

-- What the program sees of the machine and does to it; times are in milliseconds. `digest` is
-- `ssid_digest`, and `uuid` the first eight digits of `uuid.uuid4()`; `write_file` and `remove_file` are
-- for files that the commands read.
pub record Host : Type 1 where
  pub Mac : Type 0
  pub run : List String → Mac → Reply × Mac
  pub sleep : ℕ → Mac → Mac
  pub now : Mac → ℕ
  pub uuid : Mac → String × Mac
  pub digest : String → String
  pub write_file : String → String → Mac → Mac
  pub remove_file : String → Mac → Mac

-- A computation that changes a state.
abbrev pub Change : Type 0 → Type 0 → Type 0
Change S A = S → A × S

infixl 5 ◌>>=◌ ◌>>◌
abbrev pub ◌>>=◌ : {S A B : Type 0} → Change S A → (A → Change S B) → Change S B
◌>>=◌ m f s = let (a, s') = m s in f a s'

abbrev pub ◌>>◌ : {S A B : Type 0} → Change S A → Change S B → Change S B
◌>>◌ m k s = let (_, s') = m s in k s'

abbrev pub pure : {S A : Type 0} → A → Change S A
pure a s = (a, s)

-- `if test: m`
unfoldable pub when : {S : Type 0} → Bool → Change S (Unit {0}) → Change S (Unit {0})
when test m s = let done = m s in if test then done else (tt, s)

-- `for x in xs: f(x)`
unfoldable pub for_each : {S A : Type 0} → (A → Change S (Unit {0})) → List A → Change S (Unit {0})
for_each f [] s = (tt, s)
for_each f (x ∷ xs) s = for_each f xs (f x s).1
