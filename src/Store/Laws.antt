-- ===== src/Store/Laws.antt =====
-- The store in memory against an abstract map from keys to entries, call by call.
use nats_guest_access.Prelude.{
  ℕ, String, ◌≡◌, refl, Bool, true, false, Option, none, some, List, arith, ◌==◌, str_eq, eq_iff,
  if◌then◌else◌, has_prefix,
}
use nats_guest_access.Errors.{Result, ok, err}
use nats_guest_access.Store.Table.{find, with_prefix, find-put, find-remove, find-with_prefix}
use nats_guest_access.Store.{
  Entry, Memory, next_revision, Call, creating, updating, deleting, deleting_revision, apply,
  create, update, delete, delete_revision, list, write, erase, lookup,
}

-- A map as a function, and one key of it given anew.
abbrev pub Map {ℓ} : Type ℓ → Type ℓ
Map V = String → Option (Entry V)

abbrev pub at {ℓ} : {V : Type ℓ} → String → Option (Entry V) → Map V → Map V
at k o f j = if str_eq k j then o else f j

-- Whether a key is free, and whether it holds the expected revision.
abbrev pub holds {ℓ} : {V : Type ℓ} → Option (Entry V) → ℕ → Bool
holds none r = false
holds (some e) r = e.revision == r

abbrev pub is_free {ℓ} : {V : Type ℓ} → Option (Entry V) → Bool
is_free none = true
is_free (some e) = false

abbrev pub is_error : {A : Type 0} → Result A → Bool
is_error (ok a) = false
is_error (err e) = true

-- What each call does to the map, the next revision being `r`.
abbrev pub effect {ℓ} : {V : Type ℓ} → Call V → ℕ → Map V → Map V
effect (creating k v) r f =
    if is_free (f k) then at k (some (record { value = v; revision = r })) f else f
effect (updating k v seen) r f =
    if holds (f k) seen then at k (some (record { value = v; revision = r })) f else f
effect (deleting k) r f = at k none f
effect (deleting_revision k seen) r f = if holds (f k) seen then at k none f else f

module _ {ℓ} {V : Type ℓ} where
  -- Every call that can change the store in memory changes what is under each key as the call of
  -- an abstract map does: Create sets a free key, Update a key that holds the expected revision,
  -- Delete frees a key, DeleteRevision one that holds the expected revision, and an entry that
  -- is written gets the next revision.
  pub lookup-apply :
      (c : Call V) (m : Memory V) (j : String)
      → lookup j (apply c m) ≡ effect c (next_revision m.revision) (λ k. lookup k m) j
  unfolding apply write erase
  lookup-apply (creating k v) m j =
      ground
        (arith, find-put k j (record { value = v; revision = next_revision m.revision }) m.entries)
  lookup-apply (updating k v r) m j =
      ground
        (arith, find-put k j (record { value = v; revision = next_revision m.revision }) m.entries)
  lookup-apply (deleting k) m j = ground (arith, find-remove k j m.entries, eq_iff k j)
  lookup-apply (deleting_revision k r) m j = ground (arith, find-remove k j m.entries)

  -- Whether a call returns an error.
  unfoldable pub fails : Call V → Memory V → Bool
  unfolding create update delete delete_revision
  fails (creating k v) m = is_error (create k v m).0
  fails (updating k v r) m = is_error (update k v r m).0
  fails (deleting k) m = is_error (delete k m).0
  fails (deleting_revision k r) m = is_error (delete_revision k r m).0

  -- A call of Create, Update, Delete or DeleteRevision that returns an error leaves the store,
  -- with its revision counter, as it was.
  pub fails-unchanged : (c : Call V) (m : Memory V) → fails c m ≡ true → apply c m ≡ m
  unfolding fails apply write erase
  fails-unchanged (creating k v) m h = ground arith
  fails-unchanged (updating k v r) m h = ground arith
  fails-unchanged (deleting k) m h = ground arith
  fails-unchanged (deleting_revision k r) m h = ground arith

  -- List succeeds, changes nothing, and gives under each key with the prefix what Get finds
  -- there, and nothing under any other key.
  pub lookup-list :
      (prefix j : String) (m : Memory V)
      → (l : List (String × Entry V)) × (list prefix m ≡ (ok l, m))
        × (find j l ≡ (if has_prefix prefix j then lookup j m else none))
  unfolding list
  lookup-list prefix j m = (with_prefix prefix m.entries, refl, find-with_prefix prefix j m.entries)
