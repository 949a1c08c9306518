-- ===== src/Domain/Capability/Grants.antt =====
-- What the daemon grants of what a client requests (internal/device/auth.go).
use multi_agent_desk.Prelude.{
  ◌≡◌, refl, inl, inr, true, ◌&&◌, List, [], ◌∷◌, Text, text_eq, text_eq_iff, arith, Bool-cases,
}
use mathlib.Core.Path.{subst}
use multi_agent_desk.Domain.Errors.{ok}
use multi_agent_desk.Domain.Capability.{
  has_capability, canonical_capabilities, intersect_capabilities, capabilities_subset,
}
use multi_agent_desk.Domain.Capability.Order.{Above, IsSorted}
use multi_agent_desk.Domain.Capability.Canonical.{
  AllKnown, Canonical, canonical_capabilities-Canonical, canonical_sorted,
}

has-intersect :
    (requested allowed : List Text) (d : Text)
    → has_capability (intersect_capabilities requested allowed) d
      ≡ (has_capability requested d && has_capability allowed d)
unfolding has_capability intersect_capabilities
has-intersect [] allowed d = refl
has-intersect (c ∷ rest) allowed d = elim (Bool-cases (text_eq c d)) [
  | inl same ↦
      let e : c ≡ d = (text_eq_iff c d).0 same in
      rw e (ground (arith, has-intersect rest allowed d, text_eq_iff d d))
  | inr differs ↦ ground (arith, has-intersect rest allowed d)
]

intersect-Above :
    (x : Text) (requested allowed : List Text)
    → Above x requested
    → Above x (intersect_capabilities requested allowed)
unfolding intersect_capabilities
intersect-Above x [] allowed a = tt
intersect-Above x (c ∷ rest) allowed a = elim (Bool-cases (has_capability allowed c)) [
  | inl granted ↦ rw granted (a.0, intersect-Above x rest allowed a.1)
  | inr refused ↦ rw refused (intersect-Above x rest allowed a.1)
]

intersect-IsSorted :
    (requested allowed : List Text)
    → IsSorted requested
    → IsSorted (intersect_capabilities requested allowed)
unfolding intersect_capabilities
intersect-IsSorted [] allowed s = tt
intersect-IsSorted (c ∷ rest) allowed s = elim (Bool-cases (has_capability allowed c)) [
  | inl granted ↦
      rw granted (intersect-Above c rest allowed s.0, intersect-IsSorted rest allowed s.1)
  | inr refused ↦ rw refused (intersect-IsSorted rest allowed s.1)
]

intersect-AllKnown :
    (requested allowed : List Text)
    → AllKnown requested
    → AllKnown (intersect_capabilities requested allowed)
unfolding intersect_capabilities
intersect-AllKnown [] allowed k = tt
intersect-AllKnown (c ∷ rest) allowed k = elim (Bool-cases (has_capability allowed c)) [
  | inl granted ↦ rw granted (k.0, intersect-AllKnown rest allowed k.1)
  | inr refused ↦ rw refused (intersect-AllKnown rest allowed k.1)
]

subset-of_members :
    (values allowed : List Text)
    → ((c : Text) → has_capability values c ≡ true → has_capability allowed c ≡ true)
    → capabilities_subset values allowed ≡ true
unfolding capabilities_subset has_capability
subset-of_members [] allowed sub = refl
subset-of_members (c ∷ rest) allowed sub =
    let first = sub c (ground (arith, text_eq_iff c c)) in
    let later = subset-of_members rest allowed (λ d h. sub d (ground arith)) in ground arith

-- The daemon's grant for a canonical request is canonical, lies within the request, so the client's
-- checks accept it, and has the capabilities that are both requested and allowed.
pub grant_accepted :
    (requested allowed : List Text)
    → canonical_capabilities requested ≡ ok requested
    → let granted = intersect_capabilities requested allowed in
      (canonical_capabilities granted ≡ ok granted)
      × (capabilities_subset granted requested ≡ true)
      × ((c : Text)
          → has_capability granted c ≡ (has_capability requested c && has_capability allowed c))
grant_accepted requested allowed h =
    let c : Canonical requested (ok requested) =
      subst (Canonical requested) h (canonical_capabilities-Canonical requested) in
    (
      canonical_sorted _ (intersect-IsSorted requested allowed c.1)
          (intersect-AllKnown requested allowed c.0),
      subset-of_members _ requested (λ d g. ground (arith, has-intersect requested allowed d)),
      has-intersect requested allowed,
    )
