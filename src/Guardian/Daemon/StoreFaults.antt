-- ===== src/Guardian/Daemon/StoreFaults.antt =====
-- How a tick meets what lies in the store: a valid baseline, and a file that is none.
use bootmux.Base.{◌+◌, ◌≤◌, ◌≡◌, refl, true, false, not, ◌&&◌, none, some, arith, any}
use bootmux.Guardian.Baseline.{host_is_clean, capture_baseline}
use bootmux.Guardian.Data.{Baseline}
use bootmux.Guardian.Daemon.{
  Guardian, store_valid, existing_baseline, since_or, Outcome, act, tick, tick_unproven, tick_idle,
  capture_tick,
}
use bootmux.Guardian.Daemon.Steps.{Step, act-Step}
use bootmux.Guardian.Host.{Host}
use bootmux.Guardian.Identity.{prove_identity, bootmux_usb_present, via_peer}
use bootmux.Guardian.Store.{
  Store, StoreError, Raised, state_store, json_decode, ok, raised, load, state_baseline,
  read_baseline, write_baseline,
}

existing_of_read :
    (st : Store) (b : Baseline)
    → read_baseline st ≡ ok (some b)
    → existing_baseline st ≡ ok (some b)
unfolding existing_baseline
existing_of_read st b h = ground arith

existing_of_fault :
    (st : Store) (e : StoreError)
    → load st state_baseline ≡ raised (state_store e)
    → existing_baseline st ≡ ok none
unfolding existing_baseline read_baseline
existing_of_fault st e h = ground arith

existing_of_text :
    (st : Store)
    → load st state_baseline ≡ raised json_decode
    → existing_baseline st ≡ raised json_decode
unfolding existing_baseline read_baseline
existing_of_text st h = ground arith

write_of_fault :
    (b : Baseline) (st : Store) (e : Raised)
    → load st state_baseline ≡ raised e
    → write_baseline b true st ≡ (raised e, st)
unfolding write_baseline
write_of_fault b st e h = ground arith

module _ (host : Host) where
  Step-store :
      {g : Guardian} {st : Store} {s : host.State} {o : Outcome host} (b : Baseline)
      → Step host g st s o
      → existing_baseline st ≡ ok (some b)
      → o.2 ≡ st
  Step-store b (Step.quiet r g' same x y) h = refl
  Step-store b (Step.repairs reason report g' s' cause e f same) h = refl
  Step-store b (Step.captures r g' st' w x c d e fresh k l m) h = cc

  -- No tick touches a store that holds a valid baseline.
  pub tick-keeps_baseline :
      (g : Guardian) (st : Store) (s : host.State) {b : Baseline}
      → read_baseline st ≡ ok (some b)
      → (tick host g st s).2 ≡ st
  unfolding tick
  tick-keeps_baseline g st s {b} h = Step-store b (act-Step host g st s) (existing_of_read st b h)

  -- A host that a tick finds idle: a usable state directory, no identity, nothing stale or detached.
  pub record IsIdle (g : Guardian) (st : Store) (s : host.State) : Type 0 where
    pub valid : store_valid st ≡ none
    pub unproven : (prove_identity host s).proven ≡ false
    pub sure : (prove_identity host s).ambiguous ≡ false
    pub fresh : any via_peer (host.routes s) ≡ false
    pub present : (g.was_attached && not (bootmux_usb_present (host.usb_devices s))) ≡ false

  act-idle :
      (g : Guardian) (st : Store) (s : host.State)
      → IsIdle g st s
      → act host g st s
        ≡ tick_idle host
            (prove_identity host s)
            (host.now s)
            (record g { heartbeat_fail_since = none })
            st
            s
  unfolding act tick_unproven
  act-idle g st s i = ground arith

  -- On an idle, clean host, stable for the stability time, a baseline file that fails the store's
  -- own checks does not make the tick fail closed: the tick raises, since the error that
  -- _existing_baseline has swallowed comes back from write_baseline.
  pub tick-raises_store_error :
      (g : Guardian) (st : Store) (s : host.State) (e : StoreError)
      → IsIdle g st s
      → host_is_clean host (prove_identity host s) s ≡ true
      → since_or g.stable_since (host.now s) + g.stability ≤ host.now s
      → load st state_baseline ≡ raised (state_store e)
      → ((tick host g st s).0 ≡ raised (state_store e)) × ((tick host g st s).2 ≡ st)
  unfolding tick tick_idle capture_tick
  tick-raises_store_error g st s e i clean late bad = rw (act-idle g st s i) (
      ground (
        arith,
        existing_of_fault st e bad,
        write_of_fault (capture_baseline host s) st (state_store e) bad,
      ))

  -- On an idle host a baseline file that is no JSON makes every tick raise.
  pub tick-raises_json :
      (g : Guardian) (st : Store) (s : host.State)
      → IsIdle g st s
      → load st state_baseline ≡ raised json_decode
      → ((tick host g st s).0 ≡ raised json_decode) × ((tick host g st s).2 ≡ st)
  unfolding tick tick_idle
  tick-raises_json g st s i bad = rw (act-idle g st s i) (ground (arith, existing_of_text st bad))
