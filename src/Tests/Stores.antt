-- ===== src/Tests/Stores.antt =====
-- internal/store/memory.go on a store with one entry.
use nats_guest_access.Prelude.{
  String, ◌≡◌, ◌≢◌, refl, List, true, none, some, [], ◌∷◌, arith, has_prefix, if◌then◌else◌,
}
use nats_guest_access.Errors.{ok}
use nats_guest_access.Store
use nats_guest_access.Store.{
  Entry, Memory, creating, updating, deleting, apply, apply_all, new_memory, create, update, get,
  list, lookup, next_revision, write,
}
use nats_guest_access.Store.Table.{find}
use nats_guest_access.Store.Laws.{lookup-apply, effect, fails, fails-unchanged, lookup-list}
use nats_guest_access.Store.Revisions.{
  IsFresh, IsFresh-new_memory, IsFresh-apply, update_once, read_again,
}

abbrev entry_one : Entry String
entry_one = record { value = "x"; revision = 1 }

abbrev one : Memory String
one = record { revision = 1; entries = ("a", record { value = "x"; revision = 1 }) ∷ [] }

one-IsFresh : IsFresh one
unfolding apply create write next_revision new_memory find Store.Table.put
one-IsFresh = IsFresh-apply (creating "a" "x") {m = new_memory} (omega arith) IsFresh-new_memory

lookup-apply_example :
    lookup "a" (apply (updating "a" "y" 1) one)
    ≡ effect (updating "a" "y" 1) (next_revision 1) (λ k. lookup k one) "a"
lookup-apply_example = lookup-apply (updating "a" "y" 1) one "a"

stale : fails (updating "a" "y" 7) one ≡ true
unfolding fails find
stale = refl

fails-unchanged_example : apply (updating "a" "y" 7) one ≡ one
fails-unchanged_example = fails-unchanged (updating "a" "y" 7) one stale

lookup-list_example :
    (l : List (String × Entry String)) × (list "a" one ≡ (ok l, one))
    × (find "a" l ≡ (if has_prefix "a" "a" then lookup "a" one else none))
lookup-list_example = lookup-list "a" "a" one

IsFresh-apply_example : IsFresh (apply (deleting "a") one)
IsFresh-apply_example = IsFresh-apply (deleting "a") {m = one} (omega arith) one-IsFresh

first_update : (update "a" "y" 1 one).0 ≡ ok 2
unfolding update find write next_revision
first_update = refl

update_once_example :
    (update "a" "z" 1 (apply_all (updating "a" "w" 2 ∷ []) (update "a" "y" 1 one).1)).0 ≢ ok 3
update_once_example =
    update_once "a" "y" "z" 1 2 3 (updating "a" "w" 2 ∷ []) one one-IsFresh (omega arith)
      first_update

still_there :
    lookup "a" (apply_all (creating "b" "y" ∷ []) one) ≡ some (record { value = "x"; revision = 1 })
unfolding apply_all apply create find write nats_guest_access.Store.Table.put
still_there = refl

read_again_example : entry_one ≡ entry_one
unfolding find
read_again_example =
    read_again "a" entry_one entry_one (creating "b" "y" ∷ []) one one-IsFresh (omega arith) refl
      still_there refl
