-- ===== src/Shield/Commands/Bounds.antt =====
-- The time that `cmd_arm` and `cmd_renew` give to a session.
use bootmux.Base.{
  ◌≡◌, refl, ℕ, ◌+◌, ◌*◌, ◌≤◌, ℤ, pos, negsuc, Bool, true, false, not, Option, none, some, String,
  ◌==◌, eq_iff, arith, if_case, if◌then◌else◌,
}
use bootmux.Shield.Answers.{
  Answer, armed_as, already_armed, red_no_wifi_device, renewed, not_armed, session_mismatch,
}
use bootmux.Shield.Arm.{clamp_ttl, arm_new, arm_session}
use bootmux.Shield.Baseline.{Baseline, capture_baseline}
use bootmux.Shield.Commands.{arm_with, renew_with, cmd_arm, cmd_renew, renew}
use bootmux.Shield.Host.{Host}
use bootmux.Shield.Journal.{open_journal}
use bootmux.Shield.Saved.{saved}
use bootmux.Shield.World.{ShieldState, stored, loaded, World, on_mac, log, load_state}

clamp_ttl-min : (ttl : ℤ) → 60 ≤ clamp_ttl ttl
unfolding clamp_ttl
clamp_ttl-min (negsuc n) = omega arith
clamp_ttl-min (pos n) = ground arith

clamp_ttl-max : (ttl : ℤ) → clamp_ttl ttl ≤ 7200
unfolding clamp_ttl
clamp_ttl-max (negsuc n) = omega arith
clamp_ttl-max (pos n) = ground arith

module _ (host : Host) where
  -- The file holds an armed state of the session that has between a minute and two hours left.
  pub record Timed (session : String) (w : World host) : Type 0 where
    pub state : ShieldState
    pub saved : w.disk.state_file ≡ stored state
    pub armed : state.armed ≡ true
    pub same : state.session_id ≡ session
    pub least : host.now w.mac + 60000 ≤ state.expires_at
    pub most : state.expires_at ≤ host.now w.mac + 7200000
    pub ttl : state.expires_at ≡ host.now w.mac + 1000 * state.ttl_seconds

  Timed-clamp_ttl :
      (session : String) (ttl : ℤ) (w : World host) (s : ShieldState)
      → w.disk.state_file ≡ stored s
      → s.armed ≡ true
      → s.session_id ≡ session
      → s.ttl_seconds ≡ clamp_ttl ttl
      → s.expires_at ≡ host.now w.mac + 1000 * clamp_ttl ttl
      → Timed session w
  Timed-clamp_ttl session ttl w s saved on same given_ttl at = record {
    state = s;
    saved = saved;
    armed = on;
    same = same;
    least = omega (arith, clamp_ttl-min ttl);
    most = omega (arith, clamp_ttl-max ttl);
    ttl = rw given_ttl at;
  }

  arm_session-Timed :
      (session : String) (b : Baseline) (ttl : ℤ) (w : World host)
      → Timed session (arm_session host session b (clamp_ttl ttl) w).1
  unfolding arm_session
  arm_session-Timed session b ttl w = Timed-clamp_ttl session ttl _ _ refl refl refl refl refl

  -- Whether the state file holds an armed session.
  abbrev pub armed_in : World host → Bool
  armed_in w = elim (loaded w.disk.state_file) [ none ↦ false | some s ↦ s.armed ]

  -- Whether the baseline of the Mac names a Wi-Fi device.
  abbrev pub has_wifi : World host → Bool
  has_wifi w = not ((capture_baseline host (host.uuid w.mac).1).0.wifi_device == "")

  abbrev pub Arms : (ℕ × Answer) × World host → Type 0
  Arms ((code, answer), w') =
      (code ≡ 0)
      × ((c : String) × (session : String) × (answer ≡ armed_as c session) × Timed session w')

  abbrev pub NoDevice : World host → (ℕ × Answer) × World host → Type 0
  NoDevice w (r, w') = (r ≡ (1, red_no_wifi_device)) × (saved w'.disk ≡ saved w.disk)

  -- What `cmd_arm` comes to, by what is there before it.
  abbrev pub ArmOutcome : World host → (ℕ × Answer) × World host → Type 0
  ArmOutcome w r =
      if armed_in w
      then r ≡ ((0, already_armed), w)
      else if has_wifi w
      then Arms r
      else NoDevice w r

  by_test :
      {A : Type 0} (b : Bool) (P Q : A → Type 0) (x y : A)
      → P x
      → Q y
      → if b then P (if b then x else y) else Q (if b then x else y)
  by_test true P Q x y p q = p
  by_test false P Q x y p q = q

  arm_session-Arms :
      (session : String) (b : Baseline) (ttl : ℤ) (w : World host)
      → Arms (arm_session host session b (clamp_ttl ttl) w)
  unfolding arm_session
  arm_session-Arms session b ttl w =
      (refl, (_, session, refl, Timed-clamp_ttl session ttl _ _ refl refl refl refl refl))

  arm_new-outcome :
      (ttl : ℤ) (w : World host)
      → let r = arm_new host (clamp_ttl ttl) w in if has_wifi w then Arms r else NoDevice w r
  unfolding arm_new open_journal
  arm_new-outcome ttl w =
      let (session, w1) = on_mac host host.uuid w in
      let (_, w2) = open_journal host session w1 in
      let (_, w3) = log host session "arm_start" w2 in
      let (baseline, w4) = on_mac host (capture_baseline host) w3 in
      by_test (has_wifi w) Arms (NoDevice w) (arm_session host session baseline (clamp_ttl ttl) w4)
        ((1, red_no_wifi_device), w4) (arm_session-Arms session baseline ttl w4) (refl, refl)

  arm_with-outcome :
      (ttl : ℤ) (state : Option ShieldState) (w : World host)
      → let r = arm_with host ttl state w in
        if elim state as (λ _. Bool) [ none ↦ false | some s ↦ s.armed ]
        then r ≡ ((0, already_armed), w)
        else if has_wifi w
        then Arms r
        else NoDevice w r
  unfolding arm_with
  arm_with-outcome ttl none w = arm_new-outcome ttl w
  arm_with-outcome ttl (some s) w =
      by_test s.armed (λ r. r ≡ ((0, already_armed), w))
        (λ r. if has_wifi w then Arms r else NoDevice w r) ((0, already_armed), w)
        (arm_new host (clamp_ttl ttl) w) refl (arm_new-outcome ttl w)

  -- Where the state file holds an armed session, cmd_arm leaves the world as it is, says so and exits
  -- with 0. Elsewhere, where the Mac's baseline names no Wi-Fi device, it says so and exits with 1, and
  -- the state and the first fingerprints are as they were; and where it names one, it exits with 0 and
  -- the saved state is armed for the session that it prints, with at least a minute and at most two
  -- hours left, whatever time was asked for.
  pub cmd_arm-outcome : (ttl : ℤ) (w : World host) → ArmOutcome w (cmd_arm host ttl w)
  unfolding cmd_arm
  cmd_arm-outcome ttl w = arm_with-outcome ttl (load_state host w).0 w

  -- What `cmd_renew` comes to, by its answer.
  abbrev pub RenewOutcome : String → World host → (ℕ × Answer) × World host → Type 0
  RenewOutcome session w ((code, renewed ttl), w') =
      (code ≡ 0) × Timed session w' × (w'.mac ≡ w.mac)
  RenewOutcome session w ((code, not_armed), w') = (code ≡ 1) × (w' ≡ w)
  RenewOutcome session w ((code, session_mismatch), w') = (code ≡ 1) × (w' ≡ w)
  RenewOutcome session w ((code, _), w') = ⊥

  renew_with-outcome :
      (session : String) (ttl : ℤ) (state : Option ShieldState) (w : World host)
      → RenewOutcome session w (renew_with host session ttl state w)
  unfolding renew_with
  renew_with-outcome session ttl none w = (refl, refl)
  renew_with-outcome session ttl (some s) w =
      if_case (RenewOutcome session w) (not s.armed) _ _ (λ _. (refl, refl))
        λ on.
          if_case (RenewOutcome session w) (s.session_id == session) _ _
            (λ same. (
              refl,
              Timed-clamp_ttl session ttl _ (renew host s (host.now w.mac) (clamp_ttl ttl)) refl
                  (ground arith) ((eq_iff s.session_id session).0 same) refl refl,
              refl,
            ))
            (λ _. (refl, refl))

  -- cmd_renew comes to one of two ends. It exits with 1 and leaves the world as it is. Or it exits with
  -- 0, the Mac is as it was, and the saved state is armed for the session that was given, with at least
  -- a minute and at most two hours left, whatever time was asked for.
  pub cmd_renew-outcome :
      (session : String) (ttl : ℤ) (w : World host)
      → RenewOutcome session w (cmd_renew host session ttl w)
  unfolding cmd_renew
  cmd_renew-outcome session ttl w = renew_with-outcome session ttl (load_state host w).0 w
