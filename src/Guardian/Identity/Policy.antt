-- ===== src/Guardian/Identity/Policy.antt =====
-- The identity policy of `prove_identity`, apart from the order in which the code applies it.
use bootmux.Base.{
  ◌≡◌, refl, ◌≢◌, ◌↔◌, ◌⊎◌, inl, inr, Bool, true, false, not, ◌||◌, none, some, List, [], ◌∷◌,
  String, arith, leb, length,
}
use bootmux.Guardian.Data.{UsbDevice, Iface, Route, Service}
use bootmux.Guardian.Host.{Host}
use bootmux.Guardian.Identity.{
  bootmux_usb_present, product_match, serial_match, candidates, hw_signals, net_signals, judge,
  choose, prove_identity,
}

-- Some USB device shows BOOTMUX's VID and PID, its product name or its serial number.
abbrev pub has_hardware : List UsbDevice → Bool
has_hardware usb = bootmux_usb_present usb || (product_match usb || serial_match usb)

has_signal : (a b c : Bool) → leb 1 (length (hw_signals a b c)) ≡ (a || (b || c))
unfolding hw_signals
has_signal a b c = ground arith

judge_proven :
    (i : Iface) (hw : List String) (services : List Service) (routes : List Route)
    → (judge i hw services routes).proven ≡ leb 1 (length hw)
unfolding judge net_signals
judge_proven i hw services routes = ground arith

choose_proven :
    (ifaces : List Iface) (hw : List String) (services : List Service) (routes : List Route)
    → ((choose ifaces hw services routes).proven ≡ true)
      ↔ ((i : Iface) × (ifaces ≡ i ∷ []) × (leb 1 (length hw) ≡ true))
unfolding choose
choose_proven [] hw services routes = (λ h. cc, λ (i, e, h). cc)
choose_proven (i ∷ []) hw services routes = rw judge_proven (λ h. (i, refl, h), λ (j, e, h). h)
choose_proven (i ∷ j ∷ ifaces) hw services routes = (λ h. cc, λ (k, e, h). cc)

judge_fields :
    (i : Iface) (hw : List String) (services : List Service) (routes : List Route)
    → let r = judge i hw services routes in
      (r.interface ≡ some i.name) × (r.proven ≡ not r.ambiguous)
unfolding judge
judge_fields i hw services routes = ground arith

choose_interface :
    (ifaces : List Iface) (hw : List String) (services : List Service) (routes : List Route)
    {name : String}
    → (choose ifaces hw services routes).interface ≡ some name
    → (i : Iface) × (ifaces ≡ i ∷ []) × (i.name ≡ name)
unfolding choose
choose_interface [] hw services routes h = cc
choose_interface (i ∷ []) hw services routes h =
    (i, refl, cc ((judge_fields i hw services routes).0))
choose_interface (i ∷ j ∷ ifaces) hw services routes h = cc

choose_outcomes :
    (ifaces : List Iface) (hw : List String) (services : List Service) (routes : List Route)
    → let r = choose ifaces hw services routes in
      ((ifaces ≡ [])
        × (r.proven ≡ false)
        × (r.ambiguous ≡ false)
        × (r.interface ≡ none)
        × (r.service ≡ none))
      ⊎ ((ifaces ≢ []) × (r.proven ≡ not r.ambiguous))
unfolding choose
choose_outcomes [] hw services routes = inl (refl, refl, refl, refl, refl)
choose_outcomes (i ∷ []) hw services routes = inr (λ e. cc, (judge_fields i hw services routes).1)
choose_outcomes (i ∷ j ∷ ifaces) hw services routes = inr (λ e. cc, refl)

module _ (host : Host) where
  -- prove_identity releases a proven identity exactly when one interface alone has an address in
  -- 10.77.0.0/24 and a USB device shows BOOTMUX's VID and PID, product name or serial number.
  pub prove_identity-proven_iff :
      (s : host.State)
      → ((prove_identity host s).proven ≡ true) ↔ (
          (i : Iface) × (candidates (host.interfaces s) ≡ i ∷ [])
          × (has_hardware (host.usb_devices s) ≡ true))
  unfolding prove_identity
  prove_identity-proven_iff s =
      let usb = host.usb_devices s in
      rw (← has_signal (bootmux_usb_present usb) (product_match usb) (serial_match usb))
        (choose_proven (candidates (host.interfaces s)) _ (host.services s) (host.routes s))

  -- The interface that prove_identity names, proven or not, is the only one with an address in
  -- 10.77.0.0/24.
  pub prove_identity-interface :
      (s : host.State) {name : String}
      → (prove_identity host s).interface ≡ some name
      → (i : Iface) × (candidates (host.interfaces s) ≡ i ∷ []) × (i.name ≡ name)
  unfolding prove_identity
  prove_identity-interface s h =
      choose_interface (candidates (host.interfaces s)) _ (host.services s) (host.routes s) h

  -- Without a candidate the identity is neither proven nor ambiguous and names nothing; with one it
  -- is either proven or ambiguous, never both.
  pub prove_identity_outcomes :
      (s : host.State)
      → let r = prove_identity host s in
        ((candidates (host.interfaces s) ≡ [])
          × (r.proven ≡ false)
          × (r.ambiguous ≡ false)
          × (r.interface ≡ none)
          × (r.service ≡ none))
        ⊎ ((candidates (host.interfaces s) ≢ []) × (r.proven ≡ not r.ambiguous))
  unfolding prove_identity
  prove_identity_outcomes s =
      choose_outcomes (candidates (host.interfaces s)) _ (host.services s) (host.routes s)
