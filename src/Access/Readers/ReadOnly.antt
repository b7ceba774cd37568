-- ===== src/Access/Readers/ReadOnly.antt =====
-- The readers of internal/access only read.
use nats_guest_access.Prelude.{String}
use nats_guest_access.Platform.{Platform}
use nats_guest_access.World.Reads.{
  Reads, Reads-bind, Reads-pure, Reads-give, Reads-fail, Reads-if, Reads-try, Reads-get, Reads-list,
}
use nats_guest_access.Access.{event_key, receipt_key, slot_prefix, load_event}
use nats_guest_access.Access.Events
use nats_guest_access.Access.Deletion
use nats_guest_access.Access.Readers

module _ (p : Platform) where
  Reads-load_event : (id : String) → Reads (load_event p id)
  unfolding load_event
  Reads-load_event id =
      Reads-bind (Reads-try (Reads-get (event_key id)))
        λ found. Reads-bind (Reads-give _) λ entry. Reads-bind (Reads-give _) λ event. Reads-pure _

  pub Reads-get_event : (principal id : String) → Reads (Events.get_event p principal id)
  unfolding Events.get_event
  Reads-get_event principal id =
      Reads-bind (Reads-load_event id) λ l. Reads-if _ (Reads-pure _) (Reads-fail _)

  pub Reads-list_events : (principal : String) → Reads (Events.list_events p principal)
  unfolding Events.list_events
  Reads-list_events principal = Reads-bind (Reads-list "event.") λ entries. Reads-pure _

  pub Reads-list_slots : (principal id : String) → Reads (Readers.list_slots p principal id)
  unfolding Readers.list_slots
  Reads-list_slots principal id = Reads-bind (Reads-get_event principal id) λ event.
      Reads-if _ (Reads-fail _) (Reads-bind (Reads-list (slot_prefix id)) λ entries. Reads-pure _)

  Reads-receipt : (id : String) → Reads (Deletion.receipt p id)
  unfolding Deletion.receipt
  Reads-receipt id =
      Reads-bind (Reads-try (Reads-get (receipt_key id)))
        λ found. Reads-bind (Reads-give _) λ entry. Reads-give _

  pub Reads-get_receipt : (principal id : String) → Reads (Deletion.get_receipt p principal id)
  unfolding Deletion.get_receipt
  Reads-get_receipt principal id =
      Reads-bind (Reads-receipt id) λ r. Reads-if _ (Reads-pure _) (Reads-fail _)

  pub Reads-list_receipts : (principal : String) → Reads (Readers.list_receipts p principal)
  unfolding Readers.list_receipts
  Reads-list_receipts principal =
      Reads-bind (Reads-list "receipt.") λ entries. Reads-bind (Reads-give _) λ rs. Reads-pure _
