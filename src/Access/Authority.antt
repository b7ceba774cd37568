-- ===== src/Access/Authority.antt =====
-- internal/access/service.go: whom SetCohost gives which capabilities.
use nats_guest_access.Prelude.{
  String, ◌≡◌, ◌≢◌, refl, List, [], ◌∷◌, str_eq, eq_iff, arith, if◌then◌else◌, Bool-cases, inl, inr,
}
use nats_guest_access.Model.{Capability, Event}
use nats_guest_access.Store.Table.{find-put, find-remove}
use nats_guest_access.Access.{can, grants, granted_to}
use nats_guest_access.Access.Events.{with_cohost}

granted_to-with_cohost :
    (event : Event) (cohost : String) (cs : List Capability) (principal : String)
    → granted_to (with_cohost event cohost cs) principal
      ≡ (if str_eq cohost principal then cs else granted_to event principal)
unfolding granted_to with_cohost
granted_to-with_cohost event cohost [] principal =
    ground (arith, find-remove cohost principal event.cohosts, eq_iff cohost principal)
granted_to-with_cohost event cohost (c ∷ cs) principal =
    ground (arith, find-put cohost principal (c ∷ cs) event.cohosts)

owner_kept :
    (event : Event) (cohost : String) (cs : List Capability)
    → (with_cohost event cohost cs).owner_subject ≡ event.owner_subject
unfolding with_cohost
owner_kept event cohost [] = refl
owner_kept event cohost (c ∷ cs) = refl

-- After SetCohost's change of an event for a cohost who is not its owner, that cohost has
-- exactly the capabilities that were given, and everybody else those that they had.
pub can-with_cohost :
    (event : Event) (cohost : String) (cs : List Capability) (principal : String)
    (capability : Capability)
    → cohost ≢ event.owner_subject
    → can (with_cohost event cohost cs) principal capability
      ≡ (if str_eq cohost principal then grants cs capability else can event principal capability)
unfolding can
can-with_cohost event cohost cs principal capability ne = rw granted_to-with_cohost (
    rw owner_kept (elim (Bool-cases (str_eq cohost principal)) [
      | inl same ↦
          let e : cohost ≡ principal = (eq_iff cohost principal).0 same in
          ground (arith, eq_iff event.owner_subject principal)
      | inr other ↦ ground arith
    ]))
