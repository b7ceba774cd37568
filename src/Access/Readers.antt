-- ===== src/Access/Readers.antt =====
-- ListSlots of internal/access/service.go and ListReceipts of internal/access/recovery.go.
pub mod ReadOnly
pub mod Listed
use nats_guest_access.Prelude.{
  ℕ, suc, String, Bool, not, ◌&&◌, none, some, List, [], ◌∷◌, ltb, if◌then◌else◌, sort_by,
}
use nats_guest_access.Errors.{failure, forbidden, decoding, Result, ok, err}
use nats_guest_access.Model.{operate, inspect, Slot, DeletionReceipt}
use nats_guest_access.Platform.{Platform}
use nats_guest_access.Store.{Entry}
use nats_guest_access.World
use nats_guest_access.World.{Action, ◌>>=◌, pure, give, fail}
use nats_guest_access.Access.{can, slot_prefix}
use nats_guest_access.Access.Events.{get_event}
use nats_guest_access.Access.Deletion.{may_read}

-- result[:n]
unfoldable pub take {ℓ} : {A : Type ℓ} → ℕ → List A → List A
take (suc n) (x ∷ l) = x ∷ take n l
take _ _ = []

abbrev pub by_number : Slot → Slot → Bool
by_number a b = ltb a.number b.number

abbrev pub newest_first : DeletionReceipt → DeletionReceipt → Bool
newest_first a b = ltb b.deleted_at a.deleted_at

module _ (p : Platform) where
  -- The slots among the entries that decode.
  unfoldable pub readable_slots : List (String × Entry p.Bytes) → List Slot
  readable_slots [] = []
  readable_slots ((key, entry) ∷ others) =
      let more = readable_slots others in
      elim (p.decode_slot entry.value) [ none ↦ more | some slot ↦ slot ∷ more ]

  unfoldable pub list_slots : String → String → Action p.Bytes (List Slot)
  unfolding get_event can slot_prefix readable_slots sort_by World.list
  list_slots principal event_id = do
    event ← get_event p principal event_id
    if not (can event principal inspect) && not (can event principal operate)
        then fail forbidden
        else do
          entries ← World.list (slot_prefix event_id)
          pure (sort_by by_number (readable_slots entries))

  -- The receipts that the principal may read; one that does not decode is an error.
  unfoldable pub readable_receipts :
      String → List (String × Entry p.Bytes) → Result (List DeletionReceipt)
  unfolding may_read
  readable_receipts principal [] = ok []
  readable_receipts principal ((key, entry) ∷ others) =
      let more = readable_receipts principal others in
      elim (p.decode_receipt entry.value) [
        | none ↦ err (failure decoding)
        | some r ↦ elim more [
          | ok rs ↦ ok (if may_read r principal then r ∷ rs else rs)
          | err e ↦ err e
        ]
      ]

  unfoldable pub list_receipts : String → Action p.Bytes (List DeletionReceipt)
  unfolding readable_receipts sort_by take World.list
  list_receipts principal = do
    entries ← World.list "receipt."
    rs ← give (readable_receipts principal entries)
    pure (take 100 (sort_by newest_first rs))
