-- ===== src/Base/Dict.antt =====
-- Dicts with texts for keys, as lists of entries in the order of insertion.
use Prim.Native.String.{String}
use mathlib.Core.Path.{◌≡◌, refl}
use mathlib.Core.Option.{Option, none, some}
use mathlib.Core.List.{List, [], ◌∷◌, map}
use native.Mathlib.Omega.{arith}
use text.Mathlib.Text.{◌==◌}
use text.Mathlib.TextEquality.{eq_iff}
use Prim.Native.Nat.{ℕ}
use mathlib.Core.Bool.{Bool, true, false, ◌&&◌, ◌||◌}
use bootmux.Base.Tests.{if◌then◌else◌, ltb, eq_ℕ}
use bootmux.Base.Text.{codes}

-- `s <= t` for the code points of texts.
abbrev pub codes_leq : List ℕ → List ℕ → Bool
codes_leq [] t = true
codes_leq (c ∷ s) [] = false
codes_leq (c ∷ s) (d ∷ t) = ltb c d || eq_ℕ c d && codes_leq s t

codes_leq_refl : (s : List ℕ) → codes_leq s s ≡ true
codes_leq_refl [] = refl
codes_leq_refl (c ∷ s) = ground (arith, codes_leq_refl s)

module _ {ℓ} {V : Type ℓ} where
  -- `d.get(k)`
  unfoldable pub get : String → List (String × V) → Option V
  get k [] = none
  get k ((j, v) ∷ d) = let rest = get k d in if j == k then some v else rest

  -- `d[k] = v`
  unfoldable pub put : String → V → List (String × V) → List (String × V)
  put k v [] = (k, v) ∷ []
  put k v ((j, w) ∷ d) = if j == k then (j, v) ∷ d else (j, w) ∷ put k v d

  abbrev pub keys : List (String × V) → List String
  keys d = map (λ e. e.0) d

  -- `d.get(k, default)`
  abbrev pub get_or : V → String → List (String × V) → V
  get_or default k d = elim (get k d) [ none ↦ default | some v ↦ v ]

  pub get-put :
      (j k : String) (v : V) (d : List (String × V))
      → get j (put k v d) ≡ (if k == j then some v else get j d)
  unfolding get put
  get-put j k v [] = refl
  get-put j k v ((i, w) ∷ d) = ground (arith, eq_iff k j, eq_iff i k, eq_iff i j, get-put j k v d)

  pub get_or-put_same :
      (default : V) (k : String) (v : V) (d : List (String × V)) → get_or default k (put k v d) ≡ v
  get_or-put_same default k v d = ground (arith, get-put k k v d, eq_iff k k)

  pub get_or-put_other :
      (default : V) (j k : String) (v : V) (d : List (String × V))
      → (k ≡ j → ⊥)
      → get_or default j (put k v d) ≡ get_or default j d
  get_or-put_other default j k v d apart = ground (arith, get-put j k v d, eq_iff k j)

  abbrev insert_key : String × V → List (String × V) → List (String × V)
  insert_key (k, v) [] = (k, v) ∷ []
  insert_key (k, v) ((j, w) ∷ d) =
      let rest = insert_key (k, v) d in
      if codes_leq (codes k) (codes j) then (k, v) ∷ (j, w) ∷ d else (j, w) ∷ rest

  -- The entries in the order of their keys.
  abbrev pub sort_keys : List (String × V) → List (String × V)
  sort_keys [] = []
  sort_keys (e ∷ d) = insert_key e (sort_keys d)

  get-insert_key :
      (i k : String) (v : V) (d : List (String × V))
      → get i (insert_key (k, v) d) ≡ (if k == i then some v else get i d)
  unfolding get
  get-insert_key i k v [] = refl
  get-insert_key i k v ((j, w) ∷ d) =
      ground (
        arith,
        eq_iff k i,
        eq_iff j i,
        eq_iff k j,
        codes_leq_refl (codes k),
        get-insert_key i k v d,
      )

  -- The order of the keys does not change what a key is given.
  pub get-sort_keys : (k : String) (d : List (String × V)) → get k (sort_keys d) ≡ get k d
  unfolding get
  get-sort_keys k [] = refl
  get-sort_keys k ((j, v) ∷ d) = rw (get-insert_key k j v (sort_keys d), get-sort_keys k d) refl
