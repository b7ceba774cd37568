-- ===== src/Store/Nats.antt =====
-- internal/store/nats.go: the store on a NATS key-value bucket, and its errors.
pub mod Listing
use nats_guest_access.Prelude.{
  ℕ, String, ◌++◌, Bool, true, false, ◌||◌, Option, none, some, List, [], ◌∷◌, has_prefix,
  if◌then◌else◌,
}
use nats_guest_access.Errors.{
  Error, sentinel, failure, backend, cancelled, store_not_found, store_conflict, store_exists, is,
  Result, ok, err,
}
use nats_guest_access.Store.{Entry}
use nats_guest_access.Store.Table.{put}

-- The errors of nats.go that the store tells apart; `other_error` is any other.
pub data BucketError : Type 0 where
  bucket_not_found key_not_found key_deleted key_exists revision_mismatch no_keys : BucketError
  other_error : BucketError

pub data Answer (A : Type 0) : Type 0 where
  done : A → Answer A
  failed : BucketError → Answer A

-- A jetstream.KeyValue, and the state of its bucket. `list_keys` is what ListKeysFiltered's
-- lister delivers, and `over` tells whether the context is over when it has.
pub record Bucket (V : Type 0) : Type 1 where
  pub State : Type 0
  pub get : String → State → Answer (Entry V) × State
  pub create : String → V → State → Answer ℕ × State
  pub update : String → V → ℕ → State → Answer ℕ × State
  pub purge : String → State → Answer (Unit {0}) × State
  pub purge_revision : String → ℕ → State → Answer (Unit {0}) × State
  pub list_keys : String → State → Answer (List String) × State
  pub over : State → Bool

-- errors.Is with jetstream's errors.
unfoldable pub is_missing : BucketError → Bool
is_missing key_not_found = true
is_missing key_deleted = true
is_missing _ = false

unfoldable pub get_error : BucketError → Error
unfolding is_missing
get_error e = if is_missing e then sentinel store_not_found else failure backend

unfoldable pub create_error : BucketError → Error
create_error key_exists = sentinel store_exists
create_error _ = failure backend

unfoldable pub update_error : BucketError → Error
unfolding get_error
update_error revision_mismatch = sentinel store_conflict
update_error e = get_error e

-- Delete tests for a missing key, and not for a deleted one.
unfoldable pub delete_error : BucketError → Error
delete_error key_not_found = sentinel store_not_found
delete_error _ = failure backend

unfoldable pub delete_revision_error : BucketError → Error
unfolding delete_error
delete_revision_error revision_mismatch = sentinel store_conflict
delete_revision_error e = delete_error e

unfoldable pub result : {A : Type 0} → (BucketError → Error) → Answer A → Result A
result f (done a) = ok a
result f (failed e) = err (f e)

module _ {V : Type 0} (b : Bucket V) where
  unfoldable pub get : String → b.State → Result (Entry V) × b.State
  unfolding result get_error
  get key s = let (r, s') = b.get key s in (result get_error r, s')

  unfoldable pub create : String → V → b.State → Result ℕ × b.State
  unfolding result create_error
  create key value s = let (r, s') = b.create key value s in (result create_error r, s')

  unfoldable pub update : String → V → ℕ → b.State → Result ℕ × b.State
  unfolding result update_error
  update key value revision s =
      let (r, s') = b.update key value revision s in (result update_error r, s')

  unfoldable pub delete : String → b.State → Result (Unit {0}) × b.State
  unfolding result delete_error
  delete key s = let (r, s') = b.purge key s in (result delete_error r, s')

  unfoldable pub delete_revision : String → ℕ → b.State → Result (Unit {0}) × b.State
  unfolding result delete_revision_error
  delete_revision key revision s =
      let (r, s') = b.purge_revision key revision s in (result delete_revision_error r, s')

  -- The loop over the keys that the lister delivers.
  unfoldable pub get_all :
      String
      → List String
      → List (String × Entry V)
      → b.State
      → Result (List (String × Entry V)) × b.State
  unfolding get has_prefix is put
  get_all prefix [] found s = (ok found, s)
  get_all prefix (key ∷ keys) found s =
      let skipped = get_all prefix keys found s in
      if has_prefix prefix key
      then (let (r, s') = get key s in
          elim r [
            | ok entry ↦ get_all prefix keys (put key entry found) s'
            | err e ↦
                let skipped' = get_all prefix keys found s' in
                if is e store_not_found then skipped' else (err e, s')
          ])
      else skipped

  -- ctx.Err after the loop.
  unfoldable pub unless_over :
      Result (List (String × Entry V)) × b.State → Result (List (String × Entry V)) × b.State
  unless_over (ok found, s) = (if b.over s then err (failure cancelled) else ok found, s)
  unless_over (err e, s) = (err e, s)

  -- What ListKeysFiltered gives.
  unfoldable pub listed :
      String → Answer (List String) × b.State → Result (List (String × Entry V)) × b.State
  unfolding get_all unless_over
  listed prefix (done keys, s) = unless_over (get_all prefix keys [] s)
  listed prefix (failed no_keys, s) = (ok [], s)
  listed prefix (failed e, s) = (err (failure backend), s)

  unfoldable pub list : String → b.State → Result (List (String × Entry V)) × b.State
  unfolding listed
  list prefix s = listed prefix (b.list_keys (prefix ++ ">") s)

-- jetstream.JetStream: it finds a bucket by its name, or creates it with a history of 1 in files.
pub record Stream : Type 1 where
  pub State : Type 0
  pub Handle : Type 0
  pub find_bucket : String → State → Answer Handle × State
  pub create_bucket : String → State → Answer Handle × State

abbrev backend_error : BucketError → Error
backend_error e = failure backend

module _ (js : Stream) where
  unfoldable pub found_or_created :
      String → Answer js.Handle × js.State → Result js.Handle × js.State
  unfolding result
  found_or_created name (failed bucket_not_found, s) =
      let (r, s') = js.create_bucket name s in (result backend_error r, s')
  found_or_created name (r, s) = (result backend_error r, s)

  unfoldable pub new_store : String → js.State → Result js.Handle × js.State
  unfolding found_or_created
  new_store name s = found_or_created name (js.find_bucket name s)
