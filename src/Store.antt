-- ===== src/Store.antt =====
-- internal/store/store.go and internal/store/memory.go: the store's contract and the
-- implementation in memory. Each method holds the mutex from its first line to its last, so it
-- is one atomic step: it takes the state and returns its result beside the new state.
pub mod Table
pub mod Laws
pub mod Revisions
pub mod Distinct
pub mod Nats
use nats_guest_access.Prelude.{
  ℕ, ◌+◌, ◌^◌, ◌%◌, String, Bool, Option, none, some, List, [], ◌∷◌, ◌==◌, if◌then◌else◌,
}
use nats_guest_access.Errors.{
  Error, sentinel, store_not_found, store_conflict, store_exists, Result, ok, err,
}
use nats_guest_access.Store.Table.{find, put, remove, with_prefix}

pub record Entry {ℓ} (V : Type ℓ) : Type ℓ where
  pub value : V
  pub revision : ℕ  -- uint64

-- A map with the counter that gives out revisions.
pub record Memory {ℓ} (V : Type ℓ) : Type ℓ where
  pub revision : ℕ  -- uint64
  pub entries : List (String × Entry V)

abbrev pub revision_limit : ℕ
revision_limit = 2 ^ 64

-- m.revision++ on a uint64
unfoldable pub next_revision : ℕ → ℕ
next_revision r = (r + 1) % revision_limit

module _ {ℓ} {V : Type ℓ} where
  unfoldable pub new_memory : Memory V
  new_memory = record { revision = 0; entries = [] }

  -- What the two writing methods share: the entry gets the next revision.
  unfoldable pub write : String → V → Memory V → Result ℕ × Memory V
  write key value m =
      let r = next_revision m.revision in
      (
        ok r,
        record {
          revision = r;
          entries = put key (record { value = value; revision = r }) m.entries;
        },
      )

  unfoldable pub get : String → Memory V → Result (Entry V) × Memory V
  get key m = elim (find key m.entries) [
    | none ↦ (err (sentinel store_not_found), m)
    | some entry ↦ (ok entry, m)
  ]

  unfoldable pub create : String → V → Memory V → Result ℕ × Memory V
  create key value m = elim (find key m.entries) [
    | none ↦ write key value m
    | some entry ↦ (err (sentinel store_exists), m)
  ]

  unfoldable pub update : String → V → ℕ → Memory V → Result ℕ × Memory V
  update key value revision m = elim (find key m.entries) [
    | none ↦ (err (sentinel store_not_found), m)
    | some entry ↦
        if entry.revision == revision then write key value m else (err (sentinel store_conflict), m)
  ]

  -- What the two deleting methods share.
  unfoldable pub erase : String → Memory V → Result (Unit {0}) × Memory V
  erase key m = (ok tt, record m { entries = remove key m.entries })

  unfoldable pub delete : String → Memory V → Result (Unit {0}) × Memory V
  delete key m = elim (find key m.entries) [
    | none ↦ (err (sentinel store_not_found), m)
    | some entry ↦ erase key m
  ]

  unfoldable pub list : String → Memory V → Result (List (String × Entry V)) × Memory V
  list prefix m = (ok (with_prefix prefix m.entries), m)

  unfoldable pub delete_revision : String → ℕ → Memory V → Result (Unit {0}) × Memory V
  delete_revision key revision m = elim (find key m.entries) [
    | none ↦ (err (sentinel store_not_found), m)
    | some entry ↦
        if entry.revision == revision then erase key m else (err (sentinel store_conflict), m)
  ]

-- The calls that can change a store, and what they do to it.
pub data Call {ℓ} (V : Type ℓ) : Type ℓ where
  creating : String → V → Call V
  updating : String → V → ℕ → Call V
  deleting : String → Call V
  deleting_revision : String → ℕ → Call V

module _ {ℓ} {V : Type ℓ} where
  unfoldable pub apply : Call V → Memory V → Memory V
  unfolding create update delete delete_revision
  apply (creating k v) m = (create k v m).1
  apply (updating k v r) m = (update k v r m).1
  apply (deleting k) m = (delete k m).1
  apply (deleting_revision k r) m = (delete_revision k r m).1

  unfoldable pub apply_all : List (Call V) → Memory V → Memory V
  apply_all [] m = m
  apply_all (c ∷ cs) m = apply_all cs (apply c m)

  abbrev pub count_calls : List (Call V) → ℕ
  count_calls [] = 0
  count_calls (c ∷ cs) = count_calls cs + 1

  abbrev pub lookup : String → Memory V → Option (Entry V)
  lookup k m = find k m.entries
