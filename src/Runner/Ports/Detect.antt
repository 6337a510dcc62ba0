-- ===== src/Runner/Ports/Detect.antt =====
-- When `detect_new_port` settles on a port.
use bootmux.Base.{
  ◌≡◌, ◌↔◌, refl, ap, ◌∙◌, sym, inl, inr, not, ◌&&◌, some, List, [], ◌∷◌, String, filter, contains,
  filter-filter, Option-cases,
}
use bootmux.Runner.Ports.{is_rejected_device, is_allowed, sort_out, decide_port, detect_new_port}

sort_out-candidates :
    (ports : List String)
    → (sort_out ports).0 ≡ filter (λ p. is_allowed (is_rejected_device p)) ports
unfolding sort_out
sort_out-candidates [] = refl
sort_out-candidates (p ∷ ports) = elim (Option-cases (is_rejected_device p)) [
  | inl fine ↦ rw (fine, sort_out) (ap (λ ps. p ∷ ps) (sort_out-candidates ports))
  | inr (reason, bad) ↦ rw (bad, sort_out) (sort_out-candidates ports)
]

decide_port_iff :
    (candidates : List String) (rejected : List (String × String)) (p : String)
    → ((decide_port candidates rejected).0 ≡ some p) ↔ (candidates ≡ p ∷ [])
unfolding decide_port
decide_port_iff [] [] p = (λ h. cc, λ h. cc)
decide_port_iff [] (r ∷ rejected) p = (λ h. cc, λ h. cc)
decide_port_iff (q ∷ []) rejected p = (λ h. cc, λ h. cc)
decide_port_iff (q ∷ o ∷ ports) rejected p = (λ h. cc, λ h. cc)

-- detect_new_port gives a port exactly when that port is, among the ports after, the only one that
-- was not there before and matches no reject pattern.
pub detect_new_port_iff :
    (before after : List String) (p : String)
    → ((detect_new_port before after).0 ≡ some p)
      ↔ (filter (λ q. not (contains q before) && is_allowed (is_rejected_device q)) after ≡ p ∷ [])
unfolding detect_new_port
detect_new_port_iff before after p =
    let fresh = filter (λ q. not (contains q before)) after in
    let (to, from) = decide_port_iff (sort_out fresh).0 (sort_out fresh).1 p in
    let e = sort_out-candidates fresh ∙ filter-filter _ _ after in
    (λ h. sym e ∙ to h, λ h. from (e ∙ h))
