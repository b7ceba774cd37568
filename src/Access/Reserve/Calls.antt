-- ===== src/Access/Reserve/Calls.antt =====
-- internal/access/service.go: the store calls of reserveSlots, and what they leave.
use nats_guest_access.Prelude.{
  ℕ, ◌≤◌, String, ◌≡◌, refl, true, false, Bool-cases, inl, inr, none, some, List, [], ◌∷◌, arith,
  str_eq, eq_iff, length,
}
use nats_guest_access.Errors.{Result, ok}
use nats_guest_access.Store
use nats_guest_access.Store.{Entry, Memory, updating, apply, apply_all, next_revision, lookup}
use nats_guest_access.Store.Table.{find, find-put}
use nats_guest_access.Store.Distinct.{Distinct, Distinct-apply, Distinct-apply_all}
use nats_guest_access.World
use nats_guest_access.World.{
  World, Action, Fault, reliable, refused, reply_lost, first, rest, quiet, settle, or_fail,
}
use nats_guest_access.World.Endings.{Enough}

rest_shorter : {A : Type 0} (l : List A) → length (rest l) ≤ length l
rest_shorter [] = omega arith
rest_shorter (x ∷ l) = omega arith

module _ {V : Type 0} where
  -- The store's table is a map, and others act at most `n` more times.
  abbrev pub Bounded : ℕ → World V → Type 0
  Bounded n w = Distinct w.memory.entries × (length w.turns ≤ n)

  -- Nobody else acts, and the entries are those of the store.
  abbrev pub Current : List (String × Entry V) → World V → Type 0
  Current l w =
      (w.turns ≡ [])
      × Distinct l
      × ((k : String) (e : Entry V) → find k l ≡ some e → lookup k w.memory ≡ some e)

  settle_enough :
      {A : Type 0} (fault : Fault) (m : Memory V) (r : Result A × Memory V)
      → Enough r.0
      → Enough (settle fault m r).0
  settle_enough reliable m r e = e
  settle_enough refused m r e = λ q. absurd (cc)
  settle_enough reply_lost m r e = λ q. absurd (cc)

  update_enough : (k : String) (v : V) (r : ℕ) (m : Memory V) → Enough (Store.update k v r m).0
  unfolding Store.update Store.write
  update_enough k v r m q = ground arith

  pub update_lasts : (k : String) (v : V) (r : ℕ) (w : World V) → Enough (World.update k v r w).0
  unfolding World.update
  update_lasts k v r w = settle_enough (first quiet w.turns).fault _ _ (update_enough k v r _)

  settle-Distinct :
      {A : Type 0} (fault : Fault) (m : Memory V) (r : Result A × Memory V)
      → Distinct m.entries
      → Distinct r.1.entries
      → Distinct (settle fault m r).1.entries
  settle-Distinct reliable m r d e = e
  settle-Distinct refused m r d e = d
  settle-Distinct reply_lost m r d e = e

  pub update-Bounded :
      (n : ℕ) (k : String) (v : V) (r : ℕ) (w : World V)
      → Bounded n w
      → Bounded n (World.update k v r w).1
  unfolding World.update apply
  update-Bounded n k v r w b =
      let turn = first quiet w.turns in
      let d = Distinct-apply_all (turn.others w.memory) w.memory b.0 in
      (
        settle-Distinct turn.fault _ _ d (Distinct-apply (updating k v r) _ d),
        omega (arith, b.1, rest_shorter w.turns),
      )

  update_found :
      (k : String) (e : Entry V) (v : V) (m : Memory V)
      → lookup k m ≡ some e
      → ((n : ℕ) × ((Store.update k v e.revision m).0 ≡ ok n))
        × ((j : String) (f : Entry V)
            → str_eq k j ≡ false
            → lookup j m ≡ some f
            → lookup j (Store.update k v e.revision m).1 ≡ some f)
  unfolding Store.update Store.write
  update_found k e v m found =
      let new : Entry V = record { value = v; revision = next_revision m.revision } in
      (
        (next_revision m.revision, ground arith),
        λ j f other q. ground (arith, find-put k j new m.entries),
      )

  pub other_key :
      (k j : String) (f : Entry V) (l : List (String × Entry V))
      → find k l ≡ none
      → find j l ≡ some f
      → str_eq k j ≡ false
  other_key k j f l free q = elim (Bool-cases (str_eq k j)) [
    | inl same ↦
        let e : k ≡ j = (eq_iff k j).0 same in
        let none_there : find j l ≡ none = rw (← e) free in absurd (ground arith)
    | inr other ↦ other
  ]

  -- An update of what is there succeeds, and leaves the other entries.
  pub update-Current :
      (k : String) (e : Entry V) (v : V) (l : List (String × Entry V)) (w : World V)
      → Current ((k, e) ∷ l) w
      → ((n : ℕ) × ((World.update k v e.revision w).0 ≡ ok n))
        × Current l (World.update k v e.revision w).1
  unfolding World.update Store.update Store.write apply_all find
  update-Current k e v l w (still, d, here) =
      let same : str_eq k k ≡ true = (eq_iff k k).1 refl in
      let (success, others) = update_found k e v w.memory (here k e (rw same refl)) in
      rw still (
        success,
        (
          refl,
          d.1,
          λ j f q. let other = other_key k j f l d.0 q in others j f other (here j f (rw other q)),
        ),
      )
