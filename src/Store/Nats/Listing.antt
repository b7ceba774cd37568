-- ===== src/Store/Nats/Listing.antt =====
-- List of internal/store/nats.go, on a bucket that serves what it holds.
use nats_guest_access.Prelude.{
  String, ◌++◌, ◌≡◌, ◌≢◌, Bool, true, false, ◌&&◌, ◌||◌, Option, none, some, List, [], ◌∷◌,
  has_prefix, str_eq, if◌then◌else◌,
}
use nats_guest_access.Errors.{Result, ok}
use nats_guest_access.Store.{Entry}
use nats_guest_access.Store.Table.{find}
use nats_guest_access.Store.Nats
use nats_guest_access.Store.Nats.{
  Bucket, Answer, done, failed, BucketError, key_not_found, no_keys, get,
}

abbrev pub contains : String → List String → Bool
contains j [] = false
contains j (k ∷ ks) = str_eq k j || contains j ks

abbrev pub served : {V : Type 0} → Option (Entry V) → Answer (Entry V)
served none = failed key_not_found
served (some entry) = done entry

abbrev or_else : {A : Type 0} → Option A → Option A → Option A
or_else none b = b
or_else (some a) b = some a

-- A prefix that ends where a token of a subject ends, so that the wildcard after it is a token.
abbrev pub EndsToken : String → Type 0
EndsToken prefix = (stem : String) × (prefix ≡ stem ++ ".")

-- What the documentation of jetstream.KeyValue says of reading, where nobody else writes: Get
-- finds what is there, and the keys that a filter with the wildcard as its last token lists
-- include every key with the tokens before it.
pub record Serves {V : Type 0} (b : Bucket V) (view : b.State → String → Option (Entry V))
    : Type 0 where
  pub found : (key : String) (s : b.State) → (b.get key s).0 ≡ served (view s key)
  pub kept : (key : String) (s : b.State) → view (b.get key s).1 ≡ view s
  pub kept_listing : (filter : String) (s : b.State) → view (b.list_keys filter s).1 ≡ view s
  pub complete :
      (prefix : String)
      → EndsToken prefix
      → (s : b.State) (keys : List String) → (b.list_keys (prefix ++ ">") s).0 ≡ done keys
      → (j : String) → has_prefix prefix j ≡ true
      → view s j ≢ none
      → contains j keys ≡ true
  pub empty :
      (prefix : String)
      → EndsToken prefix
      → (s : b.State) → (b.list_keys (prefix ++ ">") s).0 ≡ failed no_keys
      → (j : String) → has_prefix prefix j ≡ true
      → view s j ≡ none

module _ {V : Type 0} (b : Bucket V) (view : b.State → String → Option (Entry V))
    (serves : Serves b view) (prefix : String) (whole : EndsToken prefix) where
  -- What is found under a key after the loop.
  expected :
      Bool → (String → Option (Entry V)) → String → List (String × Entry V) → Option (Entry V)
  expected due v j found = if due then or_else (v j) (find j found) else find j found

  abbrev IsFound :
      (String → Option (Entry V))
      → List String
      → List (String × Entry V)
      → Result (List (String × Entry V))
      → Type 0
  IsFound v keys found r =
      (l : List (String × Entry V)) (j : String)
      → r ≡ ok l
      → find j l ≡ expected (has_prefix prefix j && contains j keys) v j found
