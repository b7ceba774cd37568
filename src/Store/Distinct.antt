-- ===== src/Store/Distinct.antt =====
-- internal/store/memory.go: the table as a map, with distinct keys.
use nats_guest_access.Prelude.{
  String, ◌≡◌, refl, Bool-cases, inl, inr, none, List, [], ◌∷◌, arith, str_eq, eq_iff, has_prefix,
}
use nats_guest_access.Store.Table.{
  find, put, remove, with_prefix, find-put, find-remove, find-with_prefix,
}
use nats_guest_access.Store.{
  Memory, next_revision, Call, creating, updating, deleting, deleting_revision, apply, apply_all,
  write, erase,
}

module _ {V : Type 0} where
  abbrev pub Distinct : List (String × V) → Type 0
  Distinct [] = Unit
  Distinct ((k, v) ∷ l) = (find k l ≡ none) × Distinct l

  Distinct-put : (k : String) (v : V) (l : List (String × V)) → Distinct l → Distinct (put k v l)
  unfolding put find
  Distinct-put k v [] d = (refl, tt)
  Distinct-put k v ((j, w) ∷ l) d = elim (Bool-cases (str_eq j k)) [
    | inl same ↦ let e : j ≡ k = (eq_iff j k).0 same in rw same (rw (← e) d.0, d.1)
    | inr other ↦
        rw other (ground (arith, find-put k j v l, eq_iff k j, eq_iff j k), Distinct-put k v l d.1)
  ]

  Distinct-remove : (k : String) (l : List (String × V)) → Distinct l → Distinct (remove k l)
  unfolding remove
  Distinct-remove k [] d = tt
  Distinct-remove k ((j, w) ∷ l) d = elim (Bool-cases (str_eq j k)) [
    | inl same ↦ rw same (Distinct-remove k l d.1)
    | inr other ↦ rw other (ground (arith, find-remove k j l), Distinct-remove k l d.1)
  ]

  pub Distinct-with_prefix :
      (p : String) (l : List (String × V)) → Distinct l → Distinct (with_prefix p l)
  unfolding with_prefix
  Distinct-with_prefix p [] d = tt
  Distinct-with_prefix p ((j, w) ∷ l) d = elim (Bool-cases (has_prefix p j)) [
    | inl under ↦ rw under (ground (arith, find-with_prefix p j l), Distinct-with_prefix p l d.1)
    | inr other ↦ rw other (Distinct-with_prefix p l d.1)
  ]

module _ {V : Type 0} where
  -- Every call that can change the store in memory keeps its table a map: one entry for each
  -- key.
  pub Distinct-apply :
      (c : Call V) (m : Memory V) → Distinct m.entries → Distinct (apply c m).entries
  unfolding apply write erase
  Distinct-apply (creating k v) m d = ground (
    arith,
    Distinct-put k (record { value = v; revision = next_revision m.revision }) m.entries d,
  )
  Distinct-apply (updating k v r) m d = ground (
    arith,
    Distinct-put k (record { value = v; revision = next_revision m.revision }) m.entries d,
  )
  Distinct-apply (deleting k) m d = ground (arith, Distinct-remove k m.entries d)
  Distinct-apply (deleting_revision k r) m d = ground (arith, Distinct-remove k m.entries d)

  pub Distinct-apply_all :
      (cs : List (Call V)) (m : Memory V) → Distinct m.entries → Distinct (apply_all cs m).entries
  unfolding apply_all
  Distinct-apply_all [] m d = d
  Distinct-apply_all (c ∷ cs) m d = Distinct-apply_all cs (apply c m) (Distinct-apply c m d)
