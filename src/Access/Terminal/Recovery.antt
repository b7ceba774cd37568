-- ===== src/Access/Terminal/Recovery.antt =====
-- Reconcile of internal/access/recovery.go, and the readers, on a store with a started deletion.
use mathlib.Core.List.{◌++◌}
use nats_guest_access.Prelude.{
  ℕ, String, ◌≡◌, ◌≢◌, ◌∙◌, refl, Bool, not, Bool-cases, inl, inr, ◌||◌, ◌&&◌, ◌==◌, Option, none,
  some, List, [], ◌∷◌, arith, ltb, leb, insert_by, sort_by,
}
use nats_guest_access.Access.Cleanup.{clean_slot}
use nats_guest_access.Access.Deletion.{clean_event}
use nats_guest_access.Errors
use nats_guest_access.Errors.{decoding, Error, Result, ok, err}
use nats_guest_access.Model.{deleting, operate, inspect, Event, Slot}
use nats_guest_access.Platform.{Platform, IsLawful}
use nats_guest_access.Store.{Entry}
use nats_guest_access.World
use nats_guest_access.World.{World, or_fail, ◌>>◌}
use nats_guest_access.World.Logic.{Fact, Keeps}
use nats_guest_access.World.Rules.{
  plain, Keeps-bind, Keeps-bind_result, Keeps-try, Keeps-check, Keeps-done, Keeps-plain, Keeps-if,
  Keeps-handle, Keeps-fail,
}
use nats_guest_access.World.Primitives.{Keeps-list, Keeps-now}
use nats_guest_access.World.Results.{
  Gives, Gives-bind, Gives-bind_with, Gives-check, Gives-pure, Gives-if, Gives-give,
}
use nats_guest_access.Access.{Service, can, same_state, slot_prefix}
use nats_guest_access.Access.Readers
use nats_guest_access.Access.Recovery
use nats_guest_access.Access.Recovery.{
  CleanupTask, RecoveryReport, empty_report, due_first, counted, event_task, slot_task, slot_tasks,
  find_tasks, attempt, run_tasks, run_found, reconcile,
}
use nats_guest_access.Access.Terminal.{Terminal}
use nats_guest_access.Access.Terminal.Cleanup.{Keeps-clean_slot, Keeps-get_event}
use nats_guest_access.Access.Terminal.Deletion.{Keeps-clean_event, is_deleting}

-- A task without a slot is that of an event that is being deleted.
abbrev Rightful : List CleanupTask → Type 0
Rightful [] = Unit
Rightful (t ∷ ts) = (t.slot ≡ none → t.event.state ≡ deleting) × Rightful ts

Rightful-append : (ts us : List CleanupTask) → Rightful ts → Rightful us → Rightful (ts ++ us)
Rightful-append [] us x y = y
Rightful-append (t ∷ ts) us x y = (x.0, Rightful-append ts us x.1 y)

Rightful-insert_by :
    (t : CleanupTask) (ts : List CleanupTask)
    → (t.slot ≡ none → t.event.state ≡ deleting)
    → Rightful ts
    → Rightful (insert_by due_first t ts)
unfolding insert_by
Rightful-insert_by t [] x y = (x, tt)
Rightful-insert_by t (u ∷ ts) x y = elim (Bool-cases (due_first t u)) [
  | inl here ↦ rw here (x, (y.0, y.1))
  | inr later ↦ rw later (y.0, Rightful-insert_by t ts x y.1)
]

Rightful-sort_by : (ts : List CleanupTask) → Rightful ts → Rightful (sort_by due_first ts)
unfolding sort_by
Rightful-sort_by [] x = tt
Rightful-sort_by (t ∷ ts) x =
    Rightful-insert_by t (sort_by due_first ts) x.0 (Rightful-sort_by ts x.1)

slot_task-some :
    (event : Event) (time : ℕ) (slot : Slot) (revision : ℕ) (t : CleanupTask)
    → slot_task event time slot revision ≡ some t
    → t.slot ≡ some slot
unfolding slot_task
slot_task-some event time slot revision t h = ground arith

ok_injective : {A : Type 0} {a b : A} → ok a ≡ ok b → a ≡ b
ok_injective h = cc

some-none : {o : Option Slot} {slot : Slot} → o ≡ some slot → o ≢ none
some-none h q = absurd (cc)

module _ (p : Platform) where
  slot_tasks-Rightful :
      (event : Event) (time : ℕ) (entries : List (String × Entry p.Bytes)) (ts : List CleanupTask)
      → slot_tasks p event time entries ≡ ok ts
      → Rightful ts
  unfolding slot_tasks
  slot_tasks-Rightful event time [] ts h = rw (← ok_injective h) tt
  slot_tasks-Rightful event time ((key, entry) ∷ others) ts h =
      go (p.decode_slot entry.value) (slot_tasks p event time others)
        (slot_tasks-Rightful event time others) h
    where
      placed :
          (slot : Slot) (o : Option CleanupTask) (us : List CleanupTask)
          → slot_task event time slot entry.revision ≡ o
          → Rightful us
          → Rightful (elim o [ none ↦ us | some task ↦ task ∷ us ])
      placed slot none us e right = right
      placed slot (some t) us e right =
          ((λ q. absurd (some-none (slot_task-some event time slot entry.revision t e) q)), right)

      go :
          (o : Option Slot) (more : Result (List CleanupTask))
          → ((us : List CleanupTask) → more ≡ ok us → Rightful us)
          → elim o [
            | none ↦ err (Errors.failure decoding)
            | some slot ↦ elim more [
              | ok tasks ↦ ok (elim (slot_task event time slot entry.revision) [
                | none ↦ tasks
                | some task ↦ task ∷ tasks
              ])
              | err e ↦ err e
            ]
          ]
            ≡ ok ts
          → Rightful ts
      go none more k q = absurd (cc)
      go (some slot) (err e) k q = absurd (cc)
      go (some slot) (ok us) k q =
          rw (← ok_injective q)
            (placed slot (slot_task event time slot entry.revision) us refl (k us refl))

  Gives-find_tasks :
      (time : ℕ) (entries : List (String × Entry p.Bytes))
      → Gives (find_tasks p time entries) Rightful
  unfolding find_tasks event_task
  Gives-find_tasks time [] = Gives-pure [] tt
  Gives-find_tasks time ((key, entry) ∷ others) = Gives-check _ λ event q.
      Gives-bind_with Rightful
        (Gives-if (same_state event.state deleting)
          (λ gone. Gives-pure _ ((λ z. is_deleting _ gone), tt))
          (λ live.
            Gives-bind _ λ slots. Gives-give _ (λ ts e. slot_tasks-Rightful event time slots ts e)))
        λ found right.
          Gives-bind_with Rightful (Gives-find_tasks time others)
            λ more right'. Gives-pure _ (Rightful-append found more right right')

  module _ (id : String) where
    Keeps-find_tasks :
        (entries : List (String × Entry p.Bytes)) (F : Fact p.Bytes) (time : ℕ)
        → Keeps (Terminal p id) F (find_tasks p time entries) plain
    unfolding find_tasks
    Keeps-find_tasks [] F time = Keeps-done _
    Keeps-find_tasks ((key, entry) ∷ others) F time = Keeps-check _ λ event q.
        Keeps-bind
          (Keeps-if (same_state event.state deleting) (λ _. Keeps-done _)
            (λ _. Keeps-bind (Keeps-list (slot_prefix event.id)) λ slots. Keeps-plain _))
          λ found. Keeps-bind (Keeps-find_tasks others _ time) λ more. Keeps-done _

    pub Keeps-list_slots :
        (F : Fact p.Bytes) (principal event_id : String)
        → Keeps (Terminal p id) F (Readers.list_slots p principal event_id) plain
    unfolding Readers.list_slots
    Keeps-list_slots F principal event_id =
        Keeps-bind (Keeps-get_event p id F principal event_id) λ event.
          Keeps-if (not (can event principal inspect) && not (can event principal operate))
            (λ _. Keeps-fail _)
            (λ _. Keeps-bind (Keeps-list (slot_prefix event_id)) λ entries. Keeps-done _)

    pub Keeps-list_receipts :
        (F : Fact p.Bytes) (principal : String)
        → Keeps (Terminal p id) F (Readers.list_receipts p principal) plain
    unfolding Readers.list_receipts
    Keeps-list_receipts F principal =
        Keeps-bind (Keeps-list "receipt.") λ entries. Keeps-check _ λ rs q. Keeps-done _

module _ (p : Platform) (laws : IsLawful p) (id : String) (s : Service) where
  Keeps-attempt :
      (F : Fact p.Bytes) (t : CleanupTask)
      → (t.slot ≡ none → t.event.state ≡ deleting)
      → Keeps (Terminal p id) F (attempt p s t) plain
  unfolding attempt
  Keeps-attempt F t right = go t.slot right
    where
      go :
          (o : Option Slot)
          → (o ≡ none → t.event.state ≡ deleting)
          → Keeps
              (Terminal p id)
              F
              (elim o [
                | none ↦ clean_event p s t.event t.revision >> World.pure tt
                | some slot ↦ clean_slot p s t.event slot t.revision
              ])
              plain
      go none right =
          Keeps-bind (Keeps-clean_event p laws id s F t.event t.revision (right refl))
            λ r. Keeps-done tt
      go (some slot) right = Keeps-clean_slot p id s F t.event slot t.revision

  Keeps-run_tasks :
      (ts : List CleanupTask) (F : Fact p.Bytes) (batch : ℕ) (over : ℕ → Bool) (time : ℕ)
      (report : RecoveryReport)
      → Rightful ts
      → Keeps (Terminal p id) F (run_tasks p s batch over time ts report) plain
  unfolding run_tasks
  Keeps-run_tasks [] F batch over time report right = Keeps-done _
  Keeps-run_tasks (t ∷ ts) F batch over time report right =
      Keeps-if (ltb time t.due || leb batch report.attempted)
        (λ _. Keeps-run_tasks ts F batch over time _ right.1)
        (λ _.
          Keeps-if (over report.attempted) (λ _. Keeps-done _)
            (λ _. Keeps-bind (Keeps-try (Keeps-attempt _ t right.0)) λ done.
              Keeps-run_tasks ts _ batch over time
                (counted done (Recovery.begun (Recovery.seen time t report))) right.1))

  Keeps-run_found :
      (F : Fact p.Bytes) (batch : ℕ) (over : ℕ → Bool) (time : ℕ)
      (found : Result (List CleanupTask))
      → ((ts : List CleanupTask) → found ≡ ok ts → Rightful ts)
      → Keeps (Terminal p id) F (run_found p s batch over time found) plain
  unfolding run_found
  Keeps-run_found F batch over time (err e) right = Keeps-done _
  Keeps-run_found F batch over time (ok ts) right =
      Keeps-run_tasks (sort_by due_first ts) F batch over time _
        (Rightful-sort_by ts (right ts refl))

  found-Rightful :
      (time : ℕ) (events : List (String × Entry p.Bytes)) (w : World p.Bytes)
      (found : Result (List CleanupTask))
      → (World.try (find_tasks p time events) w).0 ≡ ok found
      → (ts : List CleanupTask) → found ≡ ok ts
      → Rightful ts
  unfolding World.try
  found-Rightful time events w found e ts q =
      (Gives-find_tasks p time events).at w ts (ok_injective e ∙ q)

  pub Keeps-reconcile :
      (F : Fact p.Bytes) (batch : ℕ) (over : ℕ → Bool)
      → Keeps (Terminal p id) F (reconcile p s batch over) plain
  unfolding reconcile
  Keeps-reconcile F batch over =
      Keeps-if (batch == 0 || not s.cleaner) (λ _. Keeps-done _)
        λ _. Keeps-bind (Keeps-try (Keeps-list "event.")) λ listed.
          Keeps-handle listed
            (λ events q. Keeps-bind Keeps-now λ time.
              Keeps-bind_result (λ found. (ts : List CleanupTask) → found ≡ ok ts → Rightful ts)
                (found-Rightful time events) (Keeps-try (Keeps-find_tasks p id events _ time))
                λ found right. Keeps-run_found _ batch over time found right)
            (λ e q. Keeps-done _)
