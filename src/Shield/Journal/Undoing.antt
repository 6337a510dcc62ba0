-- ===== src/Shield/Journal/Undoing.antt =====
-- What `rollback` runs for the mutations that the shield records.
use mathlib.Core.List.{reverse, reverse-append}
use bootmux.Base.{◌≡◌, refl, sym, ap, ◌∙◌, true, false, some, List, [], ◌∷◌, String, ◌==◌, pos}
use bootmux.Shield.Host.{Host}
use bootmux.Shield.Journal.{undo, note, rollback}
use bootmux.Shield.Journal.Entries.{journal, entry_of, note-journal}
use bootmux.Shield.Journal.Rollback.{undo_of, undos, all_issues, run_all, rollback_lem}
use bootmux.Shield.World.{
  Category, service_disable, route_delete, order_set, pf_enable, pf_anchor_load, location_switch,
  location_create, PreValue, empty_pre, Entry, World,
}

-- A mutation that the shield records, with what was there before it: a service turned off that was on,
-- a route deleted, an order of services replaced, the location left, a location created, an anchor
-- loaded, and the packet filter turned on.
pub data Mutation : Type 0 where
  service_off : String → Mutation
  route_deleted : String → String → Mutation
  order_changed : String → List String → Mutation
  location_left location_created anchor_loaded : String → Mutation
  filter_enabled : Mutation

abbrev pub category_of : Mutation → Category
category_of (service_off service) = service_disable
category_of (route_deleted dest gateway) = route_delete
category_of (order_changed first services) = order_set
category_of (location_left name) = location_switch
category_of (location_created name) = location_create
category_of (anchor_loaded anchor) = pf_anchor_load
category_of filter_enabled = pf_enable

abbrev pub target_of : Mutation → String
target_of (service_off service) = service
target_of (route_deleted dest gateway) = dest
target_of (order_changed first services) = "network_services"
target_of (location_left name) = "network_location"
target_of (location_created name) = name
target_of (anchor_loaded anchor) = anchor
target_of filter_enabled = "pf"

abbrev pub pre_of : Mutation → PreValue
pre_of (service_off service) = record empty_pre { enabled = some true }
pre_of (route_deleted dest gateway) = record empty_pre {
  existed = some true;
  gateway = some gateway;
  family = some "inet";
}
pre_of (order_changed first services) = record empty_pre { order = some (first ∷ services) }
pre_of (location_left name) = record empty_pre { location = some name }
pre_of (location_created name) = record empty_pre { existed = some false }
pre_of (anchor_loaded anchor) = record empty_pre { rules = some "" }
pre_of filter_enabled = record empty_pre { enabled = some false }

-- The command that puts back what was there.
abbrev pub undoing : Mutation → List String
undoing (service_off service) = "networksetup" ∷ "-setnetworkserviceenabled" ∷ service ∷ "on" ∷ []
undoing (route_deleted dest gateway) = "route" ∷ "-n" ∷ "add" ∷ "-net" ∷ dest ∷ gateway ∷ []
undoing (order_changed first services) = "networksetup" ∷ "-ordernetworkservices" ∷ first ∷ services
undoing (location_left name) = "networksetup" ∷ "-switchtolocation" ∷ name ∷ []
undoing (location_created name) = "networksetup" ∷ "-deletelocation" ∷ name ∷ []
undoing (anchor_loaded anchor) = "pfctl" ∷ "-a" ∷ anchor ∷ "-F" ∷ "all" ∷ []
undoing filter_enabled = "pfctl" ∷ "-d" ∷ []

-- The location that is left has a name.
abbrev pub IsNamed : Mutation → Type 0
IsNamed (location_left name) = (name == "") ≡ false
IsNamed _ = Unit {0}

undo-undoing :
    (m : Mutation) → IsNamed m → undo (category_of m) (target_of m) (pre_of m) ≡ some (undoing m)
unfolding undo
undo-undoing (service_off service) h = refl
undo-undoing (route_deleted dest gateway) h = refl
undo-undoing (order_changed first services) h = refl
undo-undoing (location_left name) h = rw h refl
undo-undoing (location_created name) h = refl
undo-undoing (anchor_loaded anchor) h = refl
undo-undoing filter_enabled h = refl

module _ (host : Host) where
  -- A run of the undoing commands whose newest entry is known.
  run_all-known :
      (e : Entry) (es : List Entry) (m : host.Mac) {cmd : List String}
      → undo_of e ≡ some cmd
      → run_all host (undos (e ∷ es)) m ≡ run_all host (undos es) (host.run cmd m).1
  run_all-known e es m h = rw h refl

  newest :
      (session : String) (m : Mutation) (cmd : List String) (w : World host)
      → let (_, w1) =
          note host session (category_of m) (target_of m) (some (pre_of m)) cmd (pos 0) w in
        reverse (journal session w1.disk)
        ≡ entry_of host w (category_of m) (target_of m) (some (pre_of m)) cmd (pos 0)
          ∷ reverse (journal session w.disk)
  newest session m cmd w =
      ap reverse
        (note-journal host session (category_of m) (target_of m) (some (pre_of m)) cmd (pos 0) w)
      ∙ reverse-append (journal session w.disk) _

  -- Where the shield has recorded, as a success, that it turned off a service that was on, deleted a
  -- route, replaced the order of the services, left a location that has a name, created one, loaded an
  -- anchor or turned the packet filter on, a rollback first runs the command that undoes this, and then
  -- does to the Mac what a rollback would have done before it was recorded, with the same issues.
  pub rollback-note :
      (session : String) (m : Mutation) (cmd : List String) (w : World host)
      → IsNamed m
      → let (_, w1) =
          note host session (category_of m) (target_of m) (some (pre_of m)) cmd (pos 0) w in
        let undone = record w { mac = (host.run (undoing m) w.mac).1 } in
        ((rollback host session w1).0 ≡ (rollback host session undone).0)
        × ((rollback host session w1).1.mac ≡ (rollback host session undone).1.mac)
  unfolding note
  rollback-note session m cmd w named =
      let (_, w1) =
        note host session (category_of m) (target_of m) (some (pre_of m)) cmd (pos 0) w in
      let undone = record w { mac = (host.run (undoing m) w.mac).1 } in
      let e = entry_of host w (category_of m) (target_of m) (some (pre_of m)) cmd (pos 0) in
      let old = reverse (journal session w.disk) in
      let first = newest session m cmd w in
      (
        ap (λ r. r.0) (rollback_lem host session w1)
            ∙ ap all_issues first
            ∙ sym (ap (λ r. r.0) (rollback_lem host session undone)),
        ap (λ r. r.1.mac) (rollback_lem host session w1)
            ∙ ap (λ es. run_all host (undos es) w1.mac) first
            ∙ run_all-known e old w.mac (undo-undoing m named)
            ∙ sym (ap (λ r. r.1.mac) (rollback_lem host session undone)),
      )
