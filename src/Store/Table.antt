-- ===== src/Store/Table.antt =====
-- Go's map from keys to values in internal/store/memory.go, as an association list. The order of
-- the list stands for the order, any order, in which Go ranges over the map.
use nats_guest_access.Prelude.{
  String, ◌≡◌, refl, Option, none, some, List, [], ◌∷◌, arith, str_eq, eq_iff, if◌then◌else◌,
  has_prefix,
}

module _ {ℓ} {V : Type ℓ} where
  -- m[key]
  unfoldable pub find : String → List (String × V) → Option V
  find k [] = none
  find k ((j, v) ∷ l) = if str_eq j k then some v else find k l

  -- m[key] = value
  unfoldable pub put : String → V → List (String × V) → List (String × V)
  put k v [] = (k, v) ∷ []
  put k v ((j, w) ∷ l) = if str_eq j k then (k, v) ∷ l else (j, w) ∷ put k v l

  -- delete(m, key)
  unfoldable pub remove : String → List (String × V) → List (String × V)
  remove k [] = []
  remove k ((j, w) ∷ l) = let rest = remove k l in if str_eq j k then rest else (j, w) ∷ rest

  -- The entries whose key has the prefix.
  unfoldable pub with_prefix : String → List (String × V) → List (String × V)
  with_prefix p [] = []
  with_prefix p ((j, w) ∷ l) =
      let rest = with_prefix p l in if has_prefix p j then (j, w) ∷ rest else rest

  pub find-put :
      (k j : String) (v : V) (l : List (String × V))
      → find j (put k v l) ≡ (if str_eq k j then some v else find j l)
  unfolding find put
  find-put k j v [] = refl
  find-put k j v ((i, w) ∷ l) = ground (arith, eq_iff k j, eq_iff i k, eq_iff i j, find-put k j v l)

  pub find-remove :
      (k j : String) (l : List (String × V))
      → find j (remove k l) ≡ (if str_eq k j then none else find j l)
  unfolding find remove
  find-remove k j [] = ground arith
  find-remove k j ((i, w) ∷ l) =
      ground (arith, eq_iff k j, eq_iff i k, eq_iff i j, find-remove k j l)

  pub find-with_prefix :
      (p j : String) (l : List (String × V))
      → find j (with_prefix p l) ≡ (if has_prefix p j then find j l else none)
  unfolding find with_prefix
  find-with_prefix p j [] = ground arith
  find-with_prefix p j ((i, w) ∷ l) = ground (arith, eq_iff i j, find-with_prefix p j l)

pub ruleset table_laws = (find-put, find-remove, find-with_prefix)
