-- ===== src/Access/Purge/Listing.antt =====
-- internal/access/recovery.go: the guests of an event in the slots that cleanEvent lists.
use mathlib.Core.Logic.Or
use mathlib.Core.List.{Mem, mem-cons}
use mathlib.Core.List.Perm
use nats_guest_access.Prelude.{
  String, ◌≡◌, ◌∙◌, sym, ap, subst, refl, Bool-cases, inl, inr, Option, none, some, List, [], ◌∷◌,
  str_eq, sort_by-perm,
}
use nats_guest_access.Errors.{failure, decoding, Result, ok, err}
use nats_guest_access.Model.{Slot}
use nats_guest_access.Platform.{Platform}
use nats_guest_access.Store.{Entry}
use nats_guest_access.Store.Table.{find}
use nats_guest_access.Access.Deletion

module _ (p : Platform) where
  some_injective : {A : Type 0} {a b : A} → some a ≡ some b → a ≡ b
  some_injective e = cc

  ok_injective : {A : Type 0} {a b : A} → ok a ≡ ok b → a ≡ b
  ok_injective e = cc

  subjects_of-cons :
      (k : String) (other : Entry p.Bytes) (l : List (String × Entry p.Bytes)) (ss : List String)
      → Deletion.subjects_of p ((k, other) ∷ l) ≡ ok ss
      → (first : Slot) × (more : List String) × (p.decode_slot other.value ≡ some first)
        × (Deletion.subjects_of p l ≡ ok more)
        × (ss ≡ first.subject ∷ more)
  unfolding Deletion.subjects_of
  subjects_of-cons k other l ss h =
      go (p.decode_slot other.value) (Deletion.subjects_of p l) refl refl h
    where
      go :
          (o : Option Slot) (r : Result (List String))
          → p.decode_slot other.value ≡ o
          → Deletion.subjects_of p l ≡ r
          → elim o [
            | none ↦ err (failure decoding)
            | some slot ↦ elim r [ ok more ↦ ok (slot.subject ∷ more) | err e ↦ err e ]
          ]
            ≡ ok ss
          → (first : Slot) × (more : List String) × (p.decode_slot other.value ≡ some first)
            × (Deletion.subjects_of p l ≡ ok more)
            × (ss ≡ first.subject ∷ more)
      go none r d q h = absurd (cc)
      go (some first) (ok more) d q h = (first, more, d, q, sym (ok_injective h))
      go (some first) (err e) d q h = absurd (cc)

  -- The guest of every slot that was listed is among the subjects.
  pub Mem-subjects_of :
      (key : String) (entry : Entry p.Bytes) (slot : Slot) (l : List (String × Entry p.Bytes))
      (ss : List String)
      → find key l ≡ some entry
      → p.decode_slot entry.value ≡ some slot
      → Deletion.subjects_of p l ≡ ok ss
      → Mem slot.subject ss
  unfolding find
  Mem-subjects_of key entry slot [] ss f d h = absurd (nowhere f)
    where
      nowhere : none ≡ some entry → ⊥
      nowhere e = cc
  Mem-subjects_of key entry slot ((k, other) ∷ l) ss f d h =
      let (first, more, d', q, e) = subjects_of-cons k other l ss h in
      elim (Bool-cases (str_eq k key)) [
        | inl same ↦
            let here : other ≡ entry = some_injective (rw same at f) in
            let read : first ≡ slot =
              some_injective (sym d' ∙ ap (λ x. p.decode_slot x.value) here ∙ d) in
            subst (Mem slot.subject) (sym e) (mem-cons.1 (Or.inl (ap (λ x. x.subject) (sym read))))
        | inr apart ↦
            subst (Mem slot.subject) (sym e)
              (mem-cons.1 (Or.inr (Mem-subjects_of key entry slot l more (rw apart at f) d q)))
      ]

  pub Mem-sort_texts : (s : String) (l : List String) → Mem s l → Mem s (Deletion.sort_texts l)
  unfolding Deletion.sort_texts
  Mem-sort_texts s l m = (Perm.mem_iff (sort_by-perm _ l)).1 m
