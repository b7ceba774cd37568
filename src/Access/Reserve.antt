-- ===== src/Access/Reserve.antt =====
-- internal/access/service.go: how often reserveSlots begins again.
pub mod Calls
use nats_guest_access.Prelude.{
  ℕ, zero, suc, ◌<◌, ◌≤◌, String, ◌≡◌, ◌≢◌, refl, ◌⊎◌, Bool, true, false, Bool-cases, Option-cases,
  inl, inr, ◌||◌, none, some, Option, List, [], ◌∷◌, arith, str_eq, eq_iff, length, ◌==◌,
  has_prefix, if◌then◌else◌,
}
use nats_guest_access.Errors.{
  Error, sentinel, failure, out_of_fuel, decoding, store_conflict, is, Result, ok, err,
}
use nats_guest_access.Platform.{Platform}
use nats_guest_access.Store
use nats_guest_access.Store.{Entry, Memory, updating, apply, apply_all, next_revision, lookup}
use nats_guest_access.Store.Table.{find, with_prefix, find-put, find-with_prefix}
use nats_guest_access.Store.Distinct.{
  Distinct, Distinct-with_prefix, Distinct-apply, Distinct-apply_all,
}
use nats_guest_access.World
use nats_guest_access.World.{
  World, Action, Fault, reliable, refused, reply_lost, first, rest, quiet, settle, or_fail,
}
use nats_guest_access.World.Endings.{
  Enough, Lasts, Leads, Lasts-bind, Leads-try, Lasts-check, Lasts-if, Lasts-pure, Lasts-give,
}
use nats_guest_access.Access.{is_some, retry, slot_prefix}
use nats_guest_access.Access.Events
use nats_guest_access.Access.Reserve.Calls.{
  Bounded, Current, update_lasts, update-Bounded, update-Current, other_key,
}

module _ (p : Platform) where
  Lasts-retry :
      {V : Type 0} {P : World V → Type 0} (r : Result ℕ) {again done : Action V (Unit {0})}
      → Enough r
      → Lasts P again
      → Lasts P done
      → Lasts P (retry r again done)
  unfolding retry
  Lasts-retry (ok n) e la ld = ld
  Lasts-retry (err x) e la ld =
      Lasts-if (is x store_conflict) (λ _. la) (λ _. Lasts-give (err x) (λ q. e (cc)))

  or_fail-enough : {A : Type 0} (o : Option A) → Enough (or_fail decoding o)
  or_fail-enough none q = absurd (cc)
  or_fail-enough (some a) q = absurd (cc)

  Lasts-reserve_each :
      (n : ℕ) (again : Action p.Bytes (Unit {0})) (l : List (String × Entry p.Bytes))
      → Lasts (Bounded n) again
      → Lasts (Bounded n) (Events.reserve_each p again l)
  unfolding Events.reserve_each
  Lasts-reserve_each n again [] la = Lasts-pure tt
  Lasts-reserve_each n again ((key, entry) ∷ others) la = Lasts-check _ (or_fail-enough _) λ slot q.
      Lasts-if (slot.reserved || is_some slot.cleanup) (λ _. Lasts-reserve_each n again others la)
        (λ _.
          Lasts-bind
            (Leads-try (World.update key _ entry.revision)
              {Q = λ saved w. Enough saved × Bounded n w}
              (λ w b.
                (update_lasts key _ entry.revision w, update-Bounded n key _ entry.revision w b)))
            λ saved. record {
              at =
                  λ w b. (Lasts-retry saved b.0 la (Lasts-reserve_each n again others la)).at w b.1;
            })

  Current-rest :
      {V : Type 0} (k : String) (e : Entry V) (l : List (String × Entry V)) (w : World V)
      → Current ((k, e) ∷ l) w
      → Current l w
  unfolding find
  Current-rest k e l w (still, d, here) =
      (still, d.1, λ j f q. here j f (rw (other_key k j f l d.0 q) q))

  Lasts-reserve_each_quiet :
      (again : Action p.Bytes (Unit {0})) (l : List (String × Entry p.Bytes))
      → Lasts (Current l) (Events.reserve_each p again l)
  unfolding Events.reserve_each retry
  Lasts-reserve_each_quiet again [] = Lasts-pure tt
  Lasts-reserve_each_quiet again ((key, entry) ∷ others) =
      Lasts-check _ (or_fail-enough _) λ slot q.
        Lasts-if (slot.reserved || is_some slot.cleanup)
          (λ _. record {
            at = λ w c.
                (Lasts-reserve_each_quiet again others).at w (Current-rest key entry others w c);
          })
          (λ _.
            Lasts-bind
              (Leads-try (World.update key _ entry.revision)
                {Q = λ saved w. ((n : ℕ) × (saved ≡ ok n)) × Current others w}
                (λ w c. update-Current key entry _ others w c))
              λ saved. record {
                at = λ w c. rw c.0.1 ((Lasts-reserve_each_quiet again others).at w c.1);
              })

  -- What a listing gives are entries of the store, which it leaves as it is.
  listed :
      (k : String) (fault : Fault) (m : Memory p.Bytes)
      → Distinct m.entries
      → Enough (settle fault m (Store.list k m)).0
        × ((l : List (String × Entry p.Bytes))
            → (settle fault m (Store.list k m)).0 ≡ ok l
            → Distinct (settle fault m (Store.list k m)).1.entries
              × Distinct l
              × ((j : String) (e : Entry p.Bytes)
                  → find j l ≡ some e
                  → lookup j (settle fault m (Store.list k m)).1 ≡ some e))
  unfolding Store.list
  listed k reliable m d = (
    λ q. absurd (cc),
    λ l q.
        let e : with_prefix k m.entries ≡ l = cc in
        (
          d,
          rw (← e) (Distinct-with_prefix k m.entries d),
          rw (← e) (λ j f h. ground (arith, find-with_prefix k j m.entries)),
        ),
  )
  listed k refused m d = (λ q. absurd (cc), λ l q. absurd (cc))
  listed k reply_lost m d = (λ q. absurd (cc), λ l q. absurd (cc))

  turn-cases : {A : Type 0} (l : List A) → (l ≡ []) ⊎ (length (rest l) < length l)
  turn-cases [] = inl refl
  turn-cases (x ∷ l) = inr (omega arith)

  -- Either nobody acts any more, or one turn less is left.
  abbrev Listed : ℕ → List (String × Entry p.Bytes) → World p.Bytes → Type 0
  Listed fuel l w = Current l w ⊎ (Distinct w.memory.entries × (length w.turns < fuel))

  Leads-list :
      (fuel : ℕ) (k : String)
      → Leads
          (λ w. Distinct w.memory.entries × (length w.turns < suc fuel))
          (World.list k)
          (Listed fuel)
  unfolding World.list
  Leads-list fuel k = record {
    enough = λ w b.
        let turn = first quiet w.turns in
        (listed k turn.fault _ (Distinct-apply_all (turn.others w.memory) w.memory b.0)).0;
    next = λ w b l q.
        let turn = first quiet w.turns in
        let (d, dl, here) =
          (listed k turn.fault _ (Distinct-apply_all (turn.others w.memory) w.memory b.0)).1 l q in
        elim (turn-cases w.turns) [
          | inl over ↦ inl (rw over refl, dl, here)
          | inr less ↦ inr (d, omega (arith, b.1, less))
        ];
  }

  Lasts-reserve_slots :
      (fuel : ℕ) (event_id : String)
      → Lasts
          (λ w. Distinct w.memory.entries × (length w.turns < fuel))
          (Events.reserve_slots p fuel event_id)
  unfolding Events.reserve_slots
  Lasts-reserve_slots zero event_id = record { at = λ w b. absurd (omega (arith, b.1)) }
  Lasts-reserve_slots (suc fuel) event_id =
      let again = Events.reserve_slots p fuel event_id in
      Lasts-bind (Leads-list fuel (slot_prefix event_id)) λ l. record {
        at = λ w b. elim b [
          | inl current ↦ (Lasts-reserve_each_quiet again l).at w current
          | inr more ↦
              (Lasts-reserve_each (length w.turns) again l (record {
                at = λ v c.
                    (Lasts-reserve_slots fuel event_id).at v (c.0, omega (arith, c.1, more.1));
              })).at
                w (more.0, omega arith)
        ];
      }

  -- In a store with one entry for each key, reserveSlots never runs out of the model's fuel,
  -- which is one more than the turns in which others act: it begins again at most once for each
  -- of them.
  pub reserve_slots-ends :
      (event_id : String) (w : World p.Bytes)
      → Distinct w.memory.entries
      → (Events.reserve_slots p (suc (length w.turns)) event_id w).0 ≢ err (failure out_of_fuel)
  reserve_slots-ends event_id w d =
      (Lasts-reserve_slots (suc (length w.turns)) event_id).at w (d, omega arith)
