-- ===== src/Store/Revisions.antt =====
-- internal/store/memory.go: the revisions that the counter gives out, and what a client that read
-- an entry can tell from its revision.
use nats_guest_access.Prelude.{
  ℕ, ◌+◌, ◌≤◌, ◌<◌, String, ◌≡◌, ◌≢◌, ◌⊎◌, inl, inr, sym, ◌∙◌, some, Option-cases, List, [], ◌∷◌,
  arith, eq_iff, Bool-cases, ◌==◌, str_eq,
}
use nats_guest_access.Errors.{ok}
use nats_guest_access.Store.Table
use nats_guest_access.Store.Table.{find-put, find-remove}
use nats_guest_access.Store.{
  Entry, Memory, revision_limit, next_revision, Call, creating, updating, deleting,
  deleting_revision, apply, apply_all, count_calls, write, erase, lookup, update, new_memory,
}

pub next_revision-suc : (r : ℕ) → r + 1 < revision_limit → next_revision r ≡ r + 1
unfolding next_revision
next_revision-suc r h = omega arith

module _ {ℓ} {V : Type ℓ} where
  -- No entry has a revision that is still to be given out, and no two entries have the same.
  pub record IsFresh (m : Memory V) : Type ℓ where
    pub bounded : (k : String) (e : Entry V) → lookup k m ≡ some e → e.revision ≤ m.revision
    pub distinct :
        (k j : String) (e f : Entry V)
        → lookup k m ≡ some e
        → lookup j m ≡ some f
        → e.revision ≡ f.revision
        → k ≡ j

  pub IsFresh-new_memory : IsFresh (new_memory {V = V})
  unfolding new_memory Table.find
  IsFresh-new_memory = record {
    bounded = λ k e p. absurd (cc);
    distinct = λ k j e f p q r. absurd (cc);
  }

  -- `e` was read under the key at some time: while its revision is there, so is `e`.
  pub record Seen (k : String) (e : Entry V) (m : Memory V) : Type ℓ where
    pub given : e.revision ≤ m.revision
    pub same : (f : Entry V) → lookup k m ≡ some f → f.revision ≡ e.revision → f ≡ e

  pub revision-apply :
      (c : Call V) (m : Memory V)
      → m.revision + 1 < revision_limit
      → (m.revision ≤ (apply c m).revision) × ((apply c m).revision ≤ m.revision + 1)
  unfolding apply write erase
  revision-apply c m h = ground (arith, next_revision-suc m.revision)

  abbrev pub key_of : Call V → String
  key_of (creating k v) = k
  key_of (updating k v r) = k
  key_of (deleting k) = k
  key_of (deleting_revision k r) = k

  -- What is under a key after a call was there before, or the call wrote it with a new revision.
  pub lookup_after :
      (c : Call V) (m : Memory V) (k : String) (f : Entry V)
      → m.revision + 1 < revision_limit
      → lookup k (apply c m) ≡ some f
      → (lookup k m ≡ some f)
        ⊎ ((k ≡ key_of c) × (f.revision ≡ m.revision + 1) × ((apply c m).revision ≡ m.revision + 1))
  unfolding apply write erase
  lookup_after (creating j v) m k f h p =
      let e : Entry V = record { value = v; revision = next_revision m.revision } in
      ground (arith, next_revision-suc m.revision, find-put j k e m.entries, eq_iff j k)
  lookup_after (updating j v r) m k f h p =
      let e : Entry V = record { value = v; revision = next_revision m.revision } in
      ground (arith, next_revision-suc m.revision, find-put j k e m.entries, eq_iff j k)
  lookup_after (deleting j) m k f h p = ground (arith, find-remove j k m.entries)
  lookup_after (deleting_revision j r) m k f h p = ground (arith, find-remove j k m.entries)

  -- The same for each kind of call, with what is written.
  pub lookup_after_create :
      (j k : String) (v : V) (m : Memory V) (f : Entry V)
      → lookup k (apply (creating j v) m) ≡ some f
      → (lookup k m ≡ some f) ⊎ ((k ≡ j) × (f.value ≡ v))
  unfolding apply write
  lookup_after_create j k v m f p =
      let e : Entry V = record { value = v; revision = next_revision m.revision } in
      ground (arith, find-put j k e m.entries, eq_iff j k)

  pub lookup_after_update :
      (j k : String) (v : V) (r : ℕ) (m : Memory V) (f : Entry V)
      → lookup k (apply (updating j v r) m) ≡ some f
      → (lookup k m ≡ some f)
        ⊎ ((k ≡ j) × (f.value ≡ v) × (e : Entry V) × (lookup j m ≡ some e) × (e.revision ≡ r))
  unfolding apply write
  lookup_after_update j k v r m f p = elim (Option-cases (lookup j m)) [
    | inl missing ↦ inl (ground arith)
    | inr (e, found) ↦
        let n : Entry V = record { value = v; revision = next_revision m.revision } in
        elim (Bool-cases (e.revision == r)) [
          | inl hit ↦ elim (Bool-cases (str_eq j k)) [
            | inl here ↦ inr (
              sym ((eq_iff j k).0 here),
              ground (arith, find-put j k n m.entries),
              e,
              found,
              ground arith,
            )
            | inr there ↦ inl (ground (arith, find-put j k n m.entries))
          ]
          | inr miss ↦ inl (ground arith)
        ]
  ]

  pub lookup_after_delete :
      (j k : String) (r : ℕ) (m : Memory V) (f : Entry V)
      → (lookup k (apply (deleting j) m) ≡ some f → lookup k m ≡ some f)
        × (lookup k (apply (deleting_revision j r) m) ≡ some f → lookup k m ≡ some f)
  unfolding apply erase
  lookup_after_delete j k r m f = (
    λ p. ground (arith, find-remove j k m.entries),
    λ p. ground (arith, find-remove j k m.entries),
  )

  -- While the revision counter does not wrap, every call keeps these: no entry has a revision
  -- above the counter, and no two keys have entries with the same revision.
  pub IsFresh-apply :
      (c : Call V) {m : Memory V}
      → m.revision + 1 < revision_limit
      → IsFresh m
      → IsFresh (apply c m)
  IsFresh-apply c {m} h w = record {
    bounded = λ k e p. elim (lookup_after c m k e h p) [
      | inl old ↦ omega (arith, w.bounded k e old, revision-apply c m h)
      | inr new ↦ omega arith
    ];
    distinct = λ k j e f p q r. elim (lookup_after c m k e h p) [
      | inl old ↦ elim (lookup_after c m j f h q) [
        | inl old' ↦ w.distinct k j e f old old' r
        | inr new' ↦ absurd (omega (arith, w.bounded k e old))
      ]
      | inr new ↦ elim (lookup_after c m j f h q) [
        | inl old' ↦ absurd (omega (arith, w.bounded j f old'))
        | inr new' ↦ new.0 ∙ sym new'.0
      ]
    ];
  }

  pub Seen-apply :
      (c : Call V) {k : String} {e : Entry V} {m : Memory V}
      → m.revision + 1 < revision_limit
      → Seen k e m
      → Seen k e (apply c m)
  Seen-apply c {k} {e} {m} h s = record {
    given = omega (arith, s.given, revision-apply c m h);
    same = λ f p q. elim (lookup_after c m k f h p) [
      | inl old ↦ s.same f old q
      | inr new ↦ absurd (omega (arith, s.given))
    ];
  }

  -- No entry under the key has the revision, and none will.
  pub record Spent (k : String) (r : ℕ) (m : Memory V) : Type ℓ where
    pub given : r ≤ m.revision
    pub gone : (f : Entry V) → lookup k m ≡ some f → f.revision ≢ r

  pub Spent-apply :
      (c : Call V) {k : String} {r : ℕ} {m : Memory V}
      → m.revision + 1 < revision_limit
      → Spent k r m
      → Spent k r (apply c m)
  Spent-apply c {k} {r} {m} h s = record {
    given = omega (arith, s.given, revision-apply c m h);
    gone = λ f p q. elim (lookup_after c m k f h p) [
      | inl old ↦ s.gone f old q
      | inr new ↦ absurd (omega (arith, s.given))
    ];
  }

  -- A property that each call keeps while revisions last, kept by any number of calls.
  pub apply_all_induction :
      (P : Memory V → Type ℓ)
      → ((c : Call V) (m : Memory V) → m.revision + 1 < revision_limit → P m → P (apply c m))
      → (cs : List (Call V)) (m : Memory V) → m.revision + count_calls cs < revision_limit
      → P m
      → P (apply_all cs m)
  unfolding apply_all
  apply_all_induction P step [] m h x = x
  apply_all_induction P step (c ∷ cs) m h x =
      let h' : m.revision + 1 < revision_limit = omega arith in
      apply_all_induction P step cs (apply c m) (omega (arith, revision-apply c m h'))
        (step c m h' x)

  pub revision-apply_all :
      (cs : List (Call V)) (m : Memory V)
      → m.revision + count_calls cs < revision_limit
      → (m.revision ≤ (apply_all cs m).revision)
        × ((apply_all cs m).revision ≤ m.revision + count_calls cs)
  unfolding apply_all
  revision-apply_all [] m h = omega arith
  revision-apply_all (c ∷ cs) m h =
      let h' : m.revision + 1 < revision_limit = omega arith in
      let one = revision-apply c m h' in
      omega (arith, one, revision-apply_all cs (apply c m) (omega (arith, one)))

  module _ {m : Memory V} (w : IsFresh m) where
    pub Seen-now : (k : String) (e : Entry V) → lookup k m ≡ some e → Seen k e m
    Seen-now k e p = record { given = w.bounded k e p; same = λ f q r. ground arith }

  -- A successful update spends the revision that it expected.
  pub update-Spent :
      (k : String) (v : V) (r r1 : ℕ) (m : Memory V)
      → IsFresh m
      → m.revision + 1 < revision_limit
      → (update k v r m).0 ≡ ok r1
      → Spent k r (update k v r m).1 × ((update k v r m).1.revision ≡ m.revision + 1)
  unfolding update write
  update-Spent k v r r1 m w h p = elim (Option-cases (lookup k m)) [
    | inl missing ↦ absurd (ground arith)
    | inr (e, found) ↦
        let below : e.revision ≤ m.revision = w.bounded k e found in
        let n : Entry V = record { value = v; revision = next_revision m.revision } in
        (
          record {
            given = ground (arith, next_revision-suc m.revision);
            gone = λ f q.
                ground (arith, next_revision-suc m.revision, find-put k k n m.entries, eq_iff k k);
          },
          ground (arith, next_revision-suc m.revision),
        )
  ]

  Spent-update :
      (k : String) (v : V) (r r1 : ℕ) (m : Memory V) → Spent k r m → (update k v r m).0 ≢ ok r1
  unfolding update
  Spent-update k v r r1 m s p = elim (Option-cases (lookup k m)) [
    | inl missing ↦ ground arith
    | inr (e, found) ↦ ground (arith, s.gone e found)
  ]

  -- In a store whose entries have the revisions that it gave out: after an update of a key that
  -- expected the revision `r` succeeded, no update of that key that expects `r` succeeds,
  -- whatever calls are made in between, as long as the counter does not wrap.
  pub update_once :
      (k : String) (v v' : V) (r r1 r2 : ℕ) (cs : List (Call V)) (m : Memory V)
      → IsFresh m
      → m.revision + 1 + count_calls cs < revision_limit
      → (update k v r m).0 ≡ ok r1
      → (update k v' r (apply_all cs (update k v r m).1)).0 ≢ ok r2
  update_once k v v' r r1 r2 cs m w h p q =
      let (spent, one) = update-Spent k v r r1 m w (omega arith) p in
      let m' = (update k v r m).1 in
      Spent-update k v' r r2 (apply_all cs m')
        (apply_all_induction (Spent k r) (λ c n. Spent-apply c) cs m' (omega arith) spent) q

  -- In a store whose entries have the revisions that it gave out: if a key has an entry, and
  -- after any calls, the counter not wrapping, it has an entry with the same revision, then the
  -- two entries are the same.
  pub read_again :
      (k : String) (e f : Entry V) (cs : List (Call V)) (m : Memory V)
      → IsFresh m
      → m.revision + count_calls cs < revision_limit
      → lookup k m ≡ some e
      → lookup k (apply_all cs m) ≡ some f
      → f.revision ≡ e.revision
      → f ≡ e
  read_again k e f cs m w h p =
      (apply_all_induction (Seen k e) (λ c n. Seen-apply c) cs m h (Seen-now w k e p)).same f
