-- ===== src/Shield/Session/Close.antt =====
-- What `close_session` does, refused or not.
use bootmux.Base.{
  ◌≡◌, refl, sym, ◌↔◌, Bool, true, false, not, ◌&&◌, ◌||◌, List, [], ◌∷◌, String, arith, any,
  filter, contains, is_empty, if◌then◌else◌,
}
use bootmux.Base.Dict.{keys}
use bootmux.Shield.Host.{Host}
use bootmux.Shield.Journal.{open_journal}
use bootmux.Shield.Recovery.{get_current_interfaces}
use bootmux.Shield.Session.{
  Classification, refused_device_present, green_close_complete, yellow_close_partial,
  incomplete_rollback, classify, closed, close_now, still_present, close_session,
}
use bootmux.Shield.World.{ShieldState, stored, World}

-- Whether the classification is a refusal.
abbrev pub refused : Classification → Bool
refused (refused_device_present still) = true
refused green_close_complete = false
refused yellow_close_partial = false
refused (incomplete_rollback issues) = false

classify-green_iff :
    (issues : List String) (equal : Bool)
    → ((is_empty issues && equal) ≡ true)
      ↔ (classify (is_empty issues) issues equal ≡ green_close_complete)
unfolding classify
classify-green_iff [] true = (λ _. refl, λ _. refl)
classify-green_iff [] false = (λ h. cc, λ h. cc)
classify-green_iff (i ∷ is) equal = (λ h. cc, λ h. cc)

classify-refused :
    (ok : Bool) (issues : List String) (equal : Bool) → refused (classify ok issues equal) ≡ false
unfolding classify
classify-refused true [] true = refl
classify-refused true [] false = refl
classify-refused false [] equal = refl
classify-refused ok (i ∷ is) equal = refl

any-filter : {A : Type 0} (p : A → Bool) (xs : List A) → any p xs ≡ not (is_empty (filter p xs))
any-filter p [] = refl
any-filter p (x ∷ xs) = ground (arith, any-filter p xs)

any_nil : {A : Type 0} (p : A → Bool) (xs : List A) → is_empty xs ≡ true → any p xs ≡ false
any_nil p [] h = refl
any_nil p (x ∷ xs) h = cc

module _ (host : Host) where
  -- Whether the Mac lists an untrusted interface of the session.
  abbrev pub present : ShieldState → World host → Bool
  present s w =
      any (λ i. contains i (keys (get_current_interfaces host w).0)) s.untrusted_interfaces

  still_present-present :
      (s : ShieldState) (w : World host) → not (is_empty (still_present host s w).0) ≡ present s w
  unfolding still_present
  still_present-present s w = sym (any-filter _ s.untrusted_interfaces)

  close_now-refused : (s : ShieldState) (w : World host) → refused (close_now host s w).0.1 ≡ false
  unfolding close_now
  close_now-refused s w = classify-refused _ _ _

  close_now-saves :
      (s : ShieldState) (w : World host)
      → (close_now host s w).1.disk.state_file ≡ stored (closed s)
  unfolding close_now
  close_now-saves s w = refl

  close_now-green_iff :
      (s : ShieldState) (w : World host)
      → ((close_now host s w).0.0 ≡ true) ↔ ((close_now host s w).0.1 ≡ green_close_complete)
  unfolding close_now
  close_now-green_iff s w = classify-green_iff _ _

  -- The outcome of a close that is not refused.
  abbrev pub SavesClosed : ShieldState → (Bool × Classification) × World host → Type 0
  SavesClosed s ((success, c), w') =
      (w'.disk.state_file ≡ stored (closed s))
      × (refused c ≡ false)
      × ((success ≡ true) ↔ (c ≡ green_close_complete))

  close_now-SavesClosed : (s : ShieldState) (w : World host) → SavesClosed s (close_now host s w)
  close_now-SavesClosed s w = (close_now-saves s w, close_now-refused s w, close_now-green_iff s w)

  -- The outcome of a refused one.
  abbrev pub Refuses : World host → (Bool × Classification) × World host → Type 0
  Refuses w ((success, c), w') = (success ≡ false) × (refused c ≡ true) × (w'.disk ≡ w.disk)

  choose_outcome :
      (s : ShieldState) (w : World host) (force unlisted gone here : Bool)
      (a b r : (Bool × Classification) × World host)
      → not gone ≡ here
      → (unlisted ≡ true → here ≡ false)
      → SavesClosed s a
      → SavesClosed s b
      → Refuses w r
      → let outcome = if force || unlisted then a else if gone then b else r in
        if not force && here then Refuses w outcome else SavesClosed s outcome
  choose_outcome s w true unlisted gone here a b r e f p q n = p
  choose_outcome s w false true gone true a b r e f p q n = let g = f refl in cc
  choose_outcome s w false true gone false a b r e f p q n = p
  choose_outcome s w false false true true a b r e f p q n = cc
  choose_outcome s w false false true false a b r e f p q n = q
  choose_outcome s w false false false true a b r e f p q n = n
  choose_outcome s w false false false false a b r e f p q n = cc

  -- The cases of close_session, with the state that is saved by the name that the code gives it.
  pub close_session_cases :
      (s : ShieldState) (force : Bool) (w : World host)
      → if not force && present s w
        then Refuses w (close_session host s force w)
        else SavesClosed s (close_session host s force w)
  unfolding close_session open_journal still_present get_current_interfaces
  close_session_cases s force w =
      let (_, w0) = open_journal host s.session_id w in
      let (still, w1) = still_present host s w0 in
      choose_outcome s w force (is_empty s.untrusted_interfaces) (is_empty still) (present s w)
        (close_now host s w0) (close_now host s w1) ((false, refused_device_present still), w1)
        (still_present-present s w0) (any_nil _ s.untrusted_interfaces) (close_now-SavesClosed s w0)
        (close_now-SavesClosed s w1) (refl, refl, refl)

  -- What the file holds once a session is closed: a state that is disarmed, marked as closed, and
  -- without route, service or anchor, and but for these and what was seen that of the session.
  pub record Released (s : ShieldState) (w : World host) : Type 0 where
    pub state : ShieldState
    pub saved : w.disk.state_file ≡ stored state
    pub disarmed : state.armed ≡ false
    pub marked : state.session_closed ≡ true
    pub no_route : state.pinned_routes ≡ []
    pub no_service : state.quarantined_services ≡ []
    pub no_anchor : state.pf_anchor_active ≡ false
    pub rest : state ≡ record s {
      armed = state.armed;
      session_closed = state.session_closed;
      pinned_routes = state.pinned_routes;
      pf_anchor_active = state.pf_anchor_active;
      quarantined_services = state.quarantined_services;
      untrusted_interfaces = state.untrusted_interfaces;
    }

  pub closed-Released :
      (s : ShieldState) (w : World host) → w.disk.state_file ≡ stored (closed s) → Released s w
  closed-Released s w h = record {
    state = closed s;
    saved = h;
    disarmed = refl;
    marked = refl;
    no_route = refl;
    no_service = refl;
    no_anchor = refl;
    rest = refl;
  }

  -- The outcome of a close that is not refused.
  abbrev pub Closes : ShieldState → (Bool × Classification) × World host → Type 0
  Closes s ((success, c), w') =
      Released s w' × (refused c ≡ false) × ((success ≡ true) ↔ (c ≡ green_close_complete))

  SavesClosed-Closes :
      (s : ShieldState) (r : (Bool × Classification) × World host) → SavesClosed s r → Closes s r
  SavesClosed-Closes s (x, w') (held, other, green) = (closed-Released s w' held, other, green)

  outcome_of :
      (s : ShieldState) (w : World host) (refusal : Bool) (r : (Bool × Classification) × World host)
      → (if refusal then Refuses w r else SavesClosed s r)
      → if refusal then Refuses w r else Closes s r
  outcome_of s w true r h = h
  outcome_of s w false r h = SavesClosed-Closes s r h

  -- close_session is refused exactly where it is not forced and the Mac lists an untrusted interface
  -- of the session. Then it fails and leaves every file as it was. Elsewhere the state that it saves
  -- is disarmed and closed and holds no route, service or anchor, and it succeeds exactly where its
  -- classification is GREEN_CLOSE_COMPLETE.
  pub close_session-outcome :
      (s : ShieldState) (force : Bool) (w : World host)
      → if not force && present s w
        then Refuses w (close_session host s force w)
        else Closes s (close_session host s force w)
  close_session-outcome s force w =
      outcome_of s w (not force && present s w) (close_session host s force w)
        (close_session_cases s force w)
