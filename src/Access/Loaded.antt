-- ===== src/Access/Loaded.antt =====
-- What a handler knows after it has loaded an event, and the loaders in the program logic.
use nats_guest_access.Prelude.{ℕ, ◌+◌, ◌<◌, String, ◌≡◌, ◌≢◌, refl, inl, inr, Option, some, arith}
use nats_guest_access.Errors.{
  not_found, store_conflict, decoding, Failure, Sentinel, is, Result, ok, err,
}
use nats_guest_access.Model.{Event}
use nats_guest_access.Platform.{Platform}
use nats_guest_access.Store.{Entry, Memory, Call, apply, lookup, revision_limit}
use nats_guest_access.Store.Revisions.{Seen, Seen-apply, lookup_after, key_of}
use nats_guest_access.World.{Action, or_fail}
use nats_guest_access.World.Logic.{Assertion, Fact, Keeps}
use nats_guest_access.World.Rules.{
  plain, Keeps-bind, Keeps-try, Keeps-check, Keeps-pure, Keeps-if, Keeps-error, tried-ok,
}
use nats_guest_access.World.Primitives.{read, Keeps-get}
use nats_guest_access.Access.{event_key, on_missing, retry, load_event, load_slot, slot_key}

on_missing-ok :
    {A : Type 0} (s : Sentinel) (r : Result A) (a : A) → on_missing s r ≡ ok a → r ≡ ok a
unfolding on_missing
on_missing-ok s r a h = ground arith

or_fail-ok : {A : Type 0} (f : Failure) (o : Option A) (a : A) → or_fail f o ≡ ok a → o ≡ some a
or_fail-ok f o a h = ground arith

module _ (p : Platform) where
  -- The event was read under the key with this revision.
  abbrev pub loaded : String → Event → ℕ → Fact p.Bytes
  loaded k event revision = record {
    holds = λ m done.
        (e : Entry p.Bytes) × Seen k e m
        × (p.decode_event e.value ≡ some event)
        × (e.revision ≡ revision);
    call_keeps = λ c m done h x. (x.0, Seen-apply c h x.1, x.2, x.3);
    answer_keeps = λ r m done x. x;
  }

  module _ {I : Assertion p.Bytes} {F : Fact p.Bytes} where
    pub Keeps-load_event :
        (id : String) → Keeps I F (load_event p id) (λ l. loaded (event_key id) l.0 l.1)
    unfolding load_event
    Keeps-load_event id = Keeps-bind (Keeps-try (Keeps-get (event_key id))) λ found.
        Keeps-check (on_missing not_found found) λ entry q.
          Keeps-check (or_fail decoding (p.decode_event entry.value)) λ event q'.
            Keeps-pure (event, entry.revision)
              λ m d x. (
                entry,
                tried-ok (read (event_key id)) found entry m d (on_missing-ok _ found entry q) x.1,
                or_fail-ok _ _ event q',
                refl,
              )

    pub Keeps-load_slot : (id : String) (n : ℕ) → Keeps I F (load_slot p id n) plain
    unfolding load_slot
    Keeps-load_slot id n = Keeps-bind (Keeps-get (slot_key id n)) λ entry.
        Keeps-check (or_fail decoding (p.decode_slot entry.value))
          λ slot q. Keeps-pure (slot, entry.revision) λ m d x. tt

module _ {V A : Type 0} {I : Assertion V} {F : Fact V} {G : A → Fact V} where
  pub Keeps-retry :
      (r : Result ℕ) {again done : Action V A}
      → Keeps I F again G
      → Keeps I F done G
      → Keeps I F (retry r again done) G
  unfolding retry
  Keeps-retry (ok n) ka kd = kd
  Keeps-retry (err e) ka kd = Keeps-if (is e store_conflict) (λ _. ka) (λ _. Keeps-error e)

-- A store call on another key than `k` leaves an assertion about `k` alone.
pub lookup_other :
    {V : Type 0} (c : Call V) (m : Memory V) (k : String) (f : Entry V)
    → m.revision + 1 < revision_limit
    → k ≢ key_of c
    → lookup k (apply c m) ≡ some f
    → lookup k m ≡ some f
lookup_other c m k f h ne p = elim (lookup_after c m k f h p) [
  | inl old ↦ old
  | inr new ↦ absurd (ne new.0)
]
