-- ===== src/Shield/Commands/Lifecycle/Edges.antt =====
-- The edges of arming, renewing and closing.
use bootmux.Shield.Commands.Lifecycle.{
  arm, renew_session, close, Edge, stays, arms, closes, disarmed_status, not_armed_yet,
  closing-Edge, To, stays_at,
}
use bootmux.Base.{
  ◌≡◌, refl, sym, ap, subst, ◌∙◌, ◌≢◌, inl, inr, ℕ, ℤ, Bool, true, not, String, arith, ◌&&◌, ◌==◌,
  Bool-cases, if_case, if◌then◌else◌,
}
use bootmux.Shield.Answers.{Answer, already_armed, red_no_wifi_device, armed_temporary, status_of}
use bootmux.Shield.Arm.{clamp_ttl, arm_new, arm_session}
use bootmux.Shield.Commands.{renew_with, close_with, arm_with, answer_close}
use bootmux.Shield.Baseline.{Baseline, given, capture_baseline}
use bootmux.Shield.Journal.{open_journal}
use bootmux.Shield.Host.{Host}
use bootmux.Shield.Session.{close_session}
use bootmux.Shield.Session.Close.{close_session_cases, Refuses, SavesClosed, present}
use bootmux.Shield.World.{
  ShieldState, StateFile, stored, missing, corrupt, World, loaded, on_mac, log,
}

module _ (host : Host) where
  abbrev Outcome : Bool → ShieldState → World host → Bool → Type 0
  Outcome force s w test =
      if test
      then Refuses host w (close_session host s force w)
      else SavesClosed host s (close_session host s force w)

  arm_session_edge :
      (ttl : ℤ) (f : StateFile) (session : String) (b : Baseline) (n : ℕ) (w : World host)
      → status_of f ≢ armed_temporary
      → To host (arm ttl) f (arm_session host session b n w).1
  unfolding arm_session
  arm_session_edge ttl f session b n w off = arms off

  arm_new_edge :
      (ttl : ℤ) (f : StateFile) (w : World host)
      → w.disk.state_file ≡ f
      → status_of f ≢ armed_temporary
      → To host (arm ttl) f (arm_new host (clamp_ttl ttl) w).1
  unfolding arm_new open_journal
  arm_new_edge ttl f w h off =
      let (session, w1) = on_mac host host.uuid w in
      let (_, w2) = open_journal host session w1 in
      let (_, w3) = log host session "arm_start" w2 in
      let (b, w4) = on_mac host (capture_baseline host) w3 in
      if_case (λ (r : (ℕ × Answer) × World host). To host (arm ttl) f r.1) (given b.wifi_device)
        (arm_session host session b (clamp_ttl ttl) w4) ((1, red_no_wifi_device), w4)
        (λ _. arm_session_edge ttl f session b (clamp_ttl ttl) w4 off)
        (λ _. stays_at host w4 refl h)

  pub arm_edge :
      (ttl : ℤ) (f : StateFile) (w : World host)
      → w.disk.state_file ≡ f
      → To host (arm ttl) f (arm_with host ttl (loaded f) w).1
  unfolding arm_with
  arm_edge ttl missing w h = arm_new_edge ttl missing w h (not_armed_yet missing refl)
  arm_edge ttl corrupt w h = arm_new_edge ttl corrupt w h (not_armed_yet corrupt refl)
  arm_edge ttl (stored s) w h =
      if_case (λ (r : (ℕ × Answer) × World host). To host (arm ttl) (stored s) r.1) s.armed
        ((0, already_armed), w) (arm_new host (clamp_ttl ttl) w) (λ _. stays_at host w refl h)
        (λ off. arm_new_edge ttl (stored s) w h (disarmed_status s off))

  pub renew_edge :
      (session : String) (ttl : ℤ) (f : StateFile) (w : World host)
      → w.disk.state_file ≡ f
      → To host (renew_session session ttl) f (renew_with host session ttl (loaded f) w).1
  unfolding renew_with
  renew_edge session ttl missing w h = stays_at host w refl h
  renew_edge session ttl corrupt w h = stays_at host w refl h
  renew_edge session ttl (stored s) w h =
      let P =
        λ (r : (ℕ × Answer) × World host). To host (renew_session session ttl) (stored s) r.1 in
      if_case P (not s.armed) _ _ (λ _. stays_at host w refl h)
        λ _. if_case P (s.session_id == session) _ _ (λ _. stays refl) (λ _. stays_at host w refl h)

  close_edge_armed :
      (force : Bool) (s : ShieldState) (w : World host)
      → w.disk.state_file ≡ stored s
      → s.armed ≡ true
      → To host (close force) (stored s) (close_session host s force w).1
  close_edge_armed force s w h on = elim (Bool-cases (not force && present host s w)) [
    | inl here ↦
        let (_, _, same) =
          subst (λ b. Outcome force s w b) here (close_session_cases host s force w) in
        stays_at host (close_session host s force w).1 refl (ap (λ d. d.state_file) same ∙ h)
    | inr gone ↦
        let (saved, _, _) =
          subst (λ b. Outcome force s w b) gone (close_session_cases host s force w) in
        subst (λ g. Edge (close force) (status_of (stored s)) (status_of g)) (sym saved)
          (closing-Edge s refl closes on)
  ]

  pub close_edge :
      (force : Bool) (f : StateFile) (w : World host)
      → w.disk.state_file ≡ f
      → To host (close force) f (close_with host force (loaded f) w).1
  unfolding close_with
  close_edge force missing w h = stays_at host w refl h
  close_edge force corrupt w h = stays_at host w refl h
  close_edge force (stored s) w h =
      if_case (λ (r : (ℕ × Answer) × World host). To host (close force) (stored s) r.1)
        (not s.armed) _ (answer_close host (close_session host s force w))
        (λ _. stays_at host w refl h) (λ on. close_edge_armed force s w h (ground arith))
