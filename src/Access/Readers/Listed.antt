-- ===== src/Access/Readers/Listed.antt =====
-- What ListSlots of internal/access/service.go and ListReceipts of internal/access/recovery.go
-- return.
use nats_guest_access.Prelude.{
  ℕ, zero, suc, ◌≤◌, String, ◌≡◌, refl, Bool, true, false, not, ◌&&◌, none, some, Option, List, [],
  ◌∷◌, length, arith, if◌then◌else◌, InOrder, sort_by, sort_by-InOrder, insert_by, Bool-cases, inl,
  inr,
}
use nats_guest_access.Errors
use nats_guest_access.Errors.{decoding, Result, ok, err}
use nats_guest_access.Model.{inspect, operate, Slot, DeletionReceipt}
use nats_guest_access.Platform.{Platform}
use nats_guest_access.Store.{Entry}
use nats_guest_access.World.{World}
use nats_guest_access.World.Results.{
  Gives, Gives-bind, Gives-check, Gives-pure, Gives-if, Gives-fail,
}
use nats_guest_access.Access.{can}
use nats_guest_access.Access.Deletion.{may_read}
use nats_guest_access.Access.Readers
use nats_guest_access.Access.Readers.{
  take, by_number, newest_first, readable_slots, readable_receipts,
}

by_number-asymmetric : (a b : Slot) → by_number a b ≡ true → by_number b a ≡ false
by_number-asymmetric a b h = ground arith

newest_first-asymmetric :
    (a b : DeletionReceipt) → newest_first a b ≡ true → newest_first b a ≡ false
newest_first-asymmetric a b h = ground arith

-- Everybody in the list may be read by the principal.
abbrev pub AllReadable : String → List DeletionReceipt → Type 0
AllReadable principal [] = Unit
AllReadable principal (r ∷ rs) = (may_read r principal ≡ true) × AllReadable principal rs

AllReadable-insert_by :
    (principal : String) (r : DeletionReceipt) (rs : List DeletionReceipt)
    → may_read r principal ≡ true
    → AllReadable principal rs
    → AllReadable principal (insert_by newest_first r rs)
unfolding insert_by
AllReadable-insert_by principal r [] h x = (h, tt)
AllReadable-insert_by principal r (q ∷ rs) h x = elim (Bool-cases (newest_first r q)) [
  | inl here ↦ rw here (h, x)
  | inr later ↦ rw later (x.0, AllReadable-insert_by principal r rs h x.1)
]

AllReadable-sort_by :
    (principal : String) (rs : List DeletionReceipt)
    → AllReadable principal rs
    → AllReadable principal (sort_by newest_first rs)
unfolding sort_by
AllReadable-sort_by principal [] x = tt
AllReadable-sort_by principal (r ∷ rs) x =
    AllReadable-insert_by principal r (sort_by newest_first rs) x.0
      (AllReadable-sort_by principal rs x.1)

AllReadable-take :
    (principal : String) (n : ℕ) (rs : List DeletionReceipt)
    → AllReadable principal rs
    → AllReadable principal (take n rs)
unfolding take
AllReadable-take principal zero rs x = tt
AllReadable-take principal (suc n) [] x = tt
AllReadable-take principal (suc n) (r ∷ rs) x = (x.0, AllReadable-take principal n rs x.1)

module _ {A : Type 0} where
  length-take : (n : ℕ) (l : List A) → length (take n l) ≤ n
  unfolding take
  length-take zero l = omega arith
  length-take (suc n) [] = omega arith
  length-take (suc n) (x ∷ l) = omega (arith, length-take n l)

  take-InOrder :
      (before : A → A → Bool) (n : ℕ) (l : List A) → InOrder before l → InOrder before (take n l)
  unfolding take
  take-InOrder before zero l s = tt
  take-InOrder before (suc n) [] s = tt
  take-InOrder before (suc zero) (x ∷ []) s = tt
  take-InOrder before (suc (suc n)) (x ∷ []) s = tt
  take-InOrder before (suc zero) (x ∷ y ∷ l) s = tt
  take-InOrder before (suc (suc n)) (x ∷ y ∷ l) s = (s.0, take-InOrder before (suc n) (y ∷ l) s.1)

ok_injective : {A : Type 0} {a b : A} → ok a ≡ ok b → a ≡ b
ok_injective h = cc

module _ (p : Platform) (principal : String) where
  readable_receipts-AllReadable :
      (entries : List (String × Entry p.Bytes)) (rs : List DeletionReceipt)
      → readable_receipts p principal entries ≡ ok rs
      → AllReadable principal rs
  unfolding readable_receipts
  readable_receipts-AllReadable [] rs h = rw (← ok_injective h) tt
  readable_receipts-AllReadable ((key, entry) ∷ others) rs h =
      go (p.decode_receipt entry.value) (readable_receipts p principal others)
        (readable_receipts-AllReadable others) h
    where
      kept :
          (r : DeletionReceipt) (qs : List DeletionReceipt)
          → AllReadable principal qs
          → AllReadable principal (if may_read r principal then r ∷ qs else qs)
      kept r qs x = elim (Bool-cases (may_read r principal)) [
        | inl may ↦ rw may (may, x)
        | inr cannot ↦ rw cannot x
      ]

      go :
          (o : Option DeletionReceipt) (more : Result (List DeletionReceipt))
          → ((qs : List DeletionReceipt) → more ≡ ok qs → AllReadable principal qs)
          → elim o [
            | none ↦ err (Errors.failure decoding)
            | some r ↦ elim more [
              | ok qs ↦ ok (if may_read r principal then r ∷ qs else qs)
              | err e ↦ err e
            ]
          ]
            ≡ ok rs
          → AllReadable principal rs
      go none more k q = absurd (cc)
      go (some r) (err e) k q = absurd (cc)
      go (some r) (ok qs) k q = rw (← ok_injective q) (kept r qs (k qs refl))

  -- The receipts of a page: few, newest first, and all for the principal.
  pub record IsPage (rs : List DeletionReceipt) : Type 0 where
    pub few : length rs ≤ 100
    pub ordered : InOrder newest_first rs
    pub readable : AllReadable principal rs

  -- If ListReceipts ends with receipts, they are at most 100, none is older than the one after
  -- it, and the caller may read every one of them.
  pub list_receipts-IsPage :
      (w : World p.Bytes) (rs : List DeletionReceipt)
      → (Readers.list_receipts p principal w).0 ≡ ok rs
      → IsPage rs
  unfolding Readers.list_receipts
  list_receipts-IsPage w rs h =
      Gives.at {P = IsPage}
        (Gives-bind _ λ entries. Gives-check _ λ qs q. Gives-pure _ (record {
          few = length-take 100 (sort_by newest_first qs);
          ordered =
              take-InOrder newest_first 100 (sort_by newest_first qs)
                (sort_by-InOrder newest_first newest_first-asymmetric qs);
          readable =
              AllReadable-take principal 100 (sort_by newest_first qs)
                (AllReadable-sort_by principal qs (readable_receipts-AllReadable entries qs q));
        }))
        w rs h

  pub list_slots-InOrder :
      (event_id : String) (w : World p.Bytes) (slots : List Slot)
      → (Readers.list_slots p principal event_id w).0 ≡ ok slots
      → InOrder by_number slots
  unfolding Readers.list_slots
  list_slots-InOrder event_id w slots h =
      Gives.at {P = InOrder by_number}
        (Gives-bind _ λ event.
          Gives-if (not (can event principal inspect) && not (can event principal operate))
            (λ _. Gives-fail _)
            (λ _. Gives-bind _ λ entries.
              Gives-pure _
                (sort_by-InOrder by_number by_number-asymmetric (readable_slots p entries))))
        w slots h
