-- ===== src/Oracle/Usb/Hid.antt =====
-- What the marker `keyboard` makes of the verdict on a device.
use bootmux.Base.{
  ◌≡◌, ◌≢◌, refl, Bool, true, false, ◌||◌, Option, none, some, List, [], ◌∷◌, map, String, ◌<>◌,
  ◌==◌, eq_iff, filter, arith, lower, lower_code, codes, codes_contain, strip, join,
}
use bootmux.Base.Dict.{get}
use bootmux.Base.Infix.{
  Infix, Infix-contain, Infix-refl, Infix-trans, Infix-left, Infix-right, Infix-map, strip-Infix,
  get-join-Infix,
}
use bootmux.Oracle.Usb.{
  Device, Identity, ambiguous, safe_product, product_of, all_text, judge, classify_device,
  classify_bootmux, classify_first, is_bootmux,
}

-- The text of a device's fields.
entries : Device → String
entries d = join " " (map (λ e. e.0 <> " " <> e.1) d.fields)

product_in :
    (d : Device) (o : Option String)
    → get "Product" d.fields ≡ o
    → Infix (lower (elim o [ none ↦ d.name | some v ↦ v ])) (all_text d)
unfolding all_text lower entries
product_in d none missing =
    Infix-right (lower d.name) (lower (entries d)) (32 ∷ lower d.name)
      (Infix-right (lower d.name) (32 ∷ []) (lower d.name) (Infix-refl (lower d.name)))
product_in d (some v) given =
    Infix-left (lower v) (lower (entries d)) (32 ∷ lower d.name) (
      Infix-map lower_code (codes v) (codes (entries d))
        (get-join-Infix "Product" v d.fields given))

-- A device's product stands in the text in which the markers are looked for.
product-Infix : (d : Device) → Infix (lower (product_of d)) (all_text d)
unfolding product_of
product-Infix d = product_in d (get "Product" d.fields) refl

keyboard-Infix : Infix (codes "keyboard") (lower safe_product)
unfolding lower
keyboard-Infix = (codes "bootmux ", codes " safe", refl)

pub safe-hid :
    (d : Device)
    → (strip (product_of d) == safe_product) ≡ true
    → codes_contain (all_text d) (codes "keyboard") ≡ true
unfolding lower
safe-hid d h =
    let e : strip (product_of d) ≡ safe_product =
      (eq_iff (strip (product_of d)) safe_product).0 h in
    let inside : Infix (lower (strip (product_of d))) (lower (product_of d)) =
      Infix-map lower_code (codes (strip (product_of d))) (codes (product_of d))
        (strip-Infix (product_of d)) in
    let word : Infix (codes "keyboard") (lower (strip (product_of d))) = rw e keyboard-Infix in
    Infix-contain (codes "keyboard") (all_text d) (
      Infix-trans (codes "keyboard") (lower (product_of d)) (all_text d)
        (Infix-trans (codes "keyboard") (lower (strip (product_of d))) (lower (product_of d)) word
          inside)
        (product-Infix d))

pub any_second : (a b : Bool) (rest : Bool) → b ≡ true → (a || (b || rest)) ≡ true
any_second a b rest h = ground arith

judge-decided :
    (safe hid absent : Bool) → (safe ≡ true → hid ≡ true) → judge safe hid absent ≢ ambiguous
unfolding judge
judge-decided true true true f h = cc
judge-decided true true false f h = cc
judge-decided true false absent f h = cc (f refl)
judge-decided false true true f h = cc
judge-decided false true false f h = cc
judge-decided false false true f h = cc
judge-decided false false false f h = cc

device-decided : (d : Device) → (classify_device d).verdict ≢ ambiguous
unfolding classify_device
device-decided d = judge-decided _ _ _ λ safe. any_second _ _ _ (safe-hid d safe)

first-decided :
    (devices : List Device) (i : Identity) → classify_first devices ≡ some i → i.verdict ≢ ambiguous
unfolding classify_first
first-decided [] i h = cc
first-decided (d ∷ others) i h = let e : classify_device d ≡ i = cc in rw (← e) (device-decided d)

-- Whatever devices are listed, the verdict of classify_bootmux is not AMBIGUOUS: a device with the safe
-- product always counts as one with HID.
pub classify_bootmux-decided :
    (devices : List Device) (i : Identity)
    → classify_bootmux devices ≡ some i
    → i.verdict ≢ ambiguous
unfolding classify_bootmux
classify_bootmux-decided devices i h = first-decided (filter is_bootmux devices) i h
