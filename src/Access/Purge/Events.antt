-- ===== src/Access/Purge/Events.antt =====
-- internal/access/recovery.go: cleanEvent and what the application's cleaner acknowledged.
use mathlib.Core.List.{Mem}
use nats_guest_access.Prelude.{
  ℕ, ◌<◌, String, ◌≡◌, ◌≢◌, ◌∙◌, sym, ap, subst, refl, true, false, Bool-cases, inl, has_prefix,
  inr, some, List, length, length-sort_by,
}
use nats_guest_access.Errors.{Result, ok, err, failure, unconfigured}
use nats_guest_access.Model.{deleting, CleanupProgress, Event, Slot, DeletionReceipt}
use nats_guest_access.Platform.{Platform, IsLawful}
use nats_guest_access.Store.{Entry, Memory, revision_limit, apply_all, lookup}
use nats_guest_access.Store.Table.{find, with_prefix, find-with_prefix}
use nats_guest_access.World
use nats_guest_access.World.{World, Action, CleanupRequest, first, quiet, ◌>>=◌}
use nats_guest_access.World.Results.{bind_ok, first_result}
use nats_guest_access.World.Logic.{Assertion, Fact, nothing, IsSound, Sound, Post, Keeps}
use nats_guest_access.World.Rules.{
  Keeps-bind, Keeps-try, Keeps-check, Keeps-pure, Keeps-error, plain,
}
use nats_guest_access.World.Primitives.{Keeps-update, Keeps-list, Keeps-now, settled_list}
use nats_guest_access.World.Answers.{Logged, Keeps-cleanup_answered, result_fact}
use nats_guest_access.Access.{Service, event_key, slot_prefix}
use nats_guest_access.Access.Cleanup
use nats_guest_access.Access.Deletion
use nats_guest_access.Access.Purge.{accepted, logged}
use nats_guest_access.Access.Purge.Listing.{Mem-subjects_of, Mem-sort_texts}
use nats_guest_access.Access.Terminal.{Terminal, write_deleting}
use nats_guest_access.Access.Terminal.Cleanup.{patient}
use nats_guest_access.Access.Terminal.Deletion.{
  Keeps-save_receipt, Keeps-finalize_event, Keeps-claim_event, upgraded-state,
}

length-sort_texts : (l : List String) → length (Deletion.sort_texts l) ≡ length l
unfolding Deletion.sort_texts
length-sort_texts l = length-sort_by _ l

-- The store that the next store call finds, after what others do before it.
abbrev pub found_store : {V : Type 0} → World V → Memory V
found_store w = apply_all ((first quiet w.turns).others w.memory) w.memory

list-found :
    {V : Type 0} (prefix : String) (w : World V) (l : List (String × Entry V))
    → (World.list prefix w).0 ≡ ok l
    → l ≡ with_prefix prefix (found_store w).entries
unfolding World.list
list-found prefix w l h =
    settled_list prefix (first quiet w.turns).fault (found_store w) (found_store w) l h

post-Sound :
    {V A : Type 0} {I : Assertion V} (F : Fact V) (G : A → Fact V) (r : Result A) (a : A)
    (w : World V)
    → Post I F G r w
    → r ≡ ok a
    → Sound I F.holds w
post-Sound F G (ok b) a w h q = λ left.
    let s = h left in
    record { counted = s.counted; fresh = s.fresh; inv = s.inv; fact = s.fact.0; calm = s.calm }
post-Sound F G (err e) a w h q = absurd (cc)

module _ (p : Platform) where
  -- That an erasure was acknowledged for the deletion of the event, of the guest of every slot of
  -- the event that the store holds.
  abbrev pub AllErased : Event → Memory p.Bytes → List CleanupRequest → Type 0
  AllErased event store done =
      (r : CleanupRequest) × Logged r done
      × (r.deletion_id ≡ event.deletion_id)
      × (r.event_id ≡ event.id)
      × (r.application_id ≡ event.application_id)
      × ((key : String) (entry : Entry p.Bytes) (slot : Slot)
          → has_prefix (slot_prefix event.id) key ≡ true
          → lookup key store ≡ some entry
          → p.decode_slot entry.value ≡ some slot
          → Mem slot.subject r.subjects)

module _ (p : Platform) (laws : IsLawful p) (s : Service) where
  -- That an erasure was acknowledged for the deletion of the event, of the guests in the slots.
  abbrev pub erased : Event → List (String × Entry p.Bytes) → Fact p.Bytes
  erased event entries = record {
    holds = λ m done.
        (r : CleanupRequest) × Logged r done
        × (r.deletion_id ≡ event.deletion_id)
        × (r.event_id ≡ event.id)
        × (r.application_id ≡ event.application_id)
        × (subjects : List String) × (Deletion.subjects_of p entries ≡ ok subjects)
        × (r.subjects ≡ Deletion.sort_texts subjects);
    call_keeps = λ c m done h x. x;
    answer_keeps = λ other m done x. (x.0, inr x.1, x.2, x.3, x.4, x.5, x.6, x.7);
  }

  module _ (id : String) (entries : List (String × Entry p.Bytes)) where
    Keeps-settle_erased :
        (F : Fact p.Bytes) (event : Event) (progress : CleanupProgress) (revision : ℕ)
        (r : Result ℕ)
        → event.state ≡ deleting
        → ((count : ℕ)
            → r ≡ ok count
            → (m : _) (done : List CleanupRequest) → F.holds m done
            → (erased event entries).holds m done)
        → Keeps
            (Terminal p id)
            F
            (Deletion.settle_event p event progress revision r)
            (λ receipt. erased event entries)
    unfolding Deletion.settle_event
    Keeps-settle_erased F event progress revision (err e) gone k = Keeps-bind Keeps-now λ time.
        Keeps-bind
          (Keeps-try (
            Keeps-update (event_key event.id) _ revision (
              write_deleting p id laws event.id
                (record event { cleanup = some (Cleanup.after_failure progress time) }) revision
                gone)))
          λ saved. Keeps-error _
    Keeps-settle_erased F event progress revision (ok count) gone k =
        Keeps-bind (Keeps-save_receipt p laws id F event count) λ r.
          Keeps-bind (Keeps-finalize_event p laws id _ event revision)
            λ u. Keeps-pure r (λ m done x. k count refl m done x.0.0)

    Keeps-erase_erased :
        (F : Fact p.Bytes) (event : Event) (progress : CleanupProgress) (revision : ℕ)
        → event.state ≡ deleting
        → Keeps
            (Terminal p id)
            F
            (Deletion.erase_listed p s event progress revision entries)
            (λ receipt. erased event entries)
    unfolding Deletion.erase_listed
    Keeps-erase_erased F event progress revision gone = Keeps-check _ λ subjects q.
        let request : CleanupRequest = record {
          deletion_id = event.deletion_id;
          application_id = event.application_id;
          event_id = event.id;
          subjects = Deletion.sort_texts subjects;
          reason = "demo_event_deleted";
        } in
        Keeps-bind (Keeps-try (Keeps-cleanup_answered _ request (patient p id))) λ answer.
          Keeps-settle_erased _ (record event { cleanup = some progress }) progress revision
            (Cleanup.acknowledged (length subjects) answer) gone
            (λ count q' m done x.
              let (e, all) = accepted p (length subjects) answer count q' in
              (
                request,
                logged p request answer count m done e x.1 (all ∙ sym (length-sort_texts subjects)),
                refl,
                refl,
                refl,
                subjects,
                q,
                refl,
              ))

  all_erased :
      (event : Event) (store m : Memory p.Bytes) (entries : List (String × Entry p.Bytes))
      (done : List CleanupRequest)
      → entries ≡ with_prefix (slot_prefix event.id) store.entries
      → (erased event entries).holds m done
      → AllErased p event store done
  all_erased event store m entries done e (r, l, d, i, a, subjects, q, same) = (
    r,
    l,
    d,
    i,
    a,
    λ key entry slot h f k. subst (Mem slot.subject) (sym same) (
        Mem-sort_texts p slot.subject subjects (
          Mem-subjects_of p key entry slot entries subjects
            (ap (find key) e ∙ find-with_prefix (slot_prefix event.id) key store.entries ∙ rw h f) k
            q)),
  )

  listing_erased :
      (id : String) (event : Event) (progress : CleanupProgress) (revision : ℕ) (w : World p.Bytes)
      (receipt : DeletionReceipt)
      → event.state ≡ deleting
      → Sound (Terminal p id) nothing.holds w
      → ((World.list (slot_prefix event.id) >>= Deletion.erase_listed p s event progress revision)
          w).0
        ≡ ok receipt
      → ((World.list (slot_prefix event.id) >>= Deletion.erase_listed p s event progress revision)
          w).1.calls
        < revision_limit
      → AllErased p event
          (found_store w)
          ((World.list (slot_prefix event.id) >>= Deletion.erase_listed p s event progress revision)
            w).1.acknowledged
  listing_erased id event progress revision w receipt gone h done left =
      let listing = World.list (slot_prefix event.id) in
      let (entries, q) = first_result listing _ w receipt done in
      let same = bind_ok listing (Deletion.erase_listed p s event progress revision) w entries q in
      let after = Deletion.erase_listed p s event progress revision entries (listing w).1 in
      let sound =
        post-Sound nothing plain (listing w).0 entries (listing w).1
          ((Keeps-list {F = nothing} (slot_prefix event.id)).at w h) q in
      rw same (
        all_erased event (found_store w) after.1.memory entries after.1.acknowledged
          (list-found (slot_prefix event.id) w entries q)
          (result_fact (Terminal p id) nothing (λ r. erased event entries) after.0 receipt after.1
            ((Keeps-erase_erased id entries nothing event progress revision gone).at (listing w).1
              sound)
            (rw same at done) (rw same at left)))

  abbrev claimed : Event → ℕ → Action p.Bytes DeletionReceipt
  claimed event revision = Deletion.claim_event p s event revision >>= λ x.
      World.list (slot_prefix event.id) >>= Deletion.erase_listed p s event x.0 x.1

  claimed_erased :
      (id : String) (event : Event) (revision : ℕ) (w : World p.Bytes) (receipt : DeletionReceipt)
      → event.state ≡ deleting
      → Sound (Terminal p id) nothing.holds w
      → (claimed event revision w).0 ≡ ok receipt
      → (claimed event revision w).1.calls < revision_limit
      → AllErased p event
          (found_store (Deletion.claim_event p s event revision w).1)
          (claimed event revision w).1.acknowledged
  claimed_erased id event revision w receipt gone h done left =
      let claim = Deletion.claim_event p s event revision in
      let (x, q) = first_result claim _ w receipt done in
      let same =
        bind_ok claim
          (λ x. World.list (slot_prefix event.id) >>= Deletion.erase_listed p s event x.0 x.1) w x
          q in
      let sound =
        post-Sound nothing plain (claim w).0 x (claim w).1
          ((Keeps-claim_event p laws id s nothing event revision gone).at w h) q in
      rw same (
        listing_erased id event x.0 x.1 (claim w).1 receipt gone sound (rw same at done)
          (rw same at left))

  erase_configured :
      (event : Event) (revision : ℕ) (w : World p.Bytes)
      → s.cleaner ≡ true
      → Deletion.erase_event p s event revision w ≡ claimed (Deletion.upgraded event) revision w
  unfolding Deletion.erase_event
  erase_configured event revision w configured = rw configured refl

  refused :
      (event : Event) (revision : ℕ) (w : World p.Bytes) (receipt : DeletionReceipt)
      → s.cleaner ≡ false
      → (Deletion.erase_event p s event revision w).0 ≢ ok receipt
  unfolding Deletion.erase_event World.give
  refused event revision w receipt missing done = absurd (never (rw missing at done))
    where
      never : err (failure unconfigured) ≢ ok receipt
      never e = cc

  -- If the erasure of an event that is being deleted ends with a receipt, the cleaner has
  -- acknowledged a request with the event's deletion ID, its ID and its application, whose
  -- subjects include the guest of every slot of the event that the store holds, and that
  -- decodes, when the slots are listed, whatever others do that keeps the event deleted or gone.
  -- It is assumed that stored JSON decodes to what was encoded, that the entries' revisions are
  -- those that the store gave out, and that fewer calls than revisions were made.
  pub erase_event-purged :
      (event : Event) (revision : ℕ) (w : World p.Bytes) (receipt : DeletionReceipt)
      → event.state ≡ deleting
      → IsSound (Terminal p event.id) nothing.holds w
      → (Deletion.erase_event p s event revision w).0 ≡ ok receipt
      → (Deletion.erase_event p s event revision w).1.calls < revision_limit
      → AllErased p
          (Deletion.upgraded event)
          (found_store (Deletion.claim_event p s (Deletion.upgraded event) revision w).1)
          (Deletion.erase_event p s event revision w).1.acknowledged
  erase_event-purged event revision w receipt gone h done left = elim (Bool-cases s.cleaner) [
    | inl configured ↦
        let same = erase_configured event revision w configured in
        rw same (
          claimed_erased event.id (Deletion.upgraded event) revision w receipt
            (upgraded-state p laws event.id event ∙ gone) (λ _. h) (rw same at done)
            (rw same at left))
    | inr missing ↦ absurd (refused event revision w receipt missing done)
  ]
