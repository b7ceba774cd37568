-- ===== src/World/Primitives.antt =====
-- The rules of the program logic for the store's calls, the clock, the random sources and the
-- cleaner.
use nats_guest_access.Prelude.{
  ℕ, ◌+◌, ◌<◌, ◌==◌, String, ◌≡◌, refl, true, Bool-cases, inl, inr, Option, none, some, List, [],
  ◌∷◌, arith, has_prefix, length,
}
use nats_guest_access.Errors.{Result, ok, err}
use nats_guest_access.Platform.{Platform}
use nats_guest_access.Store
use nats_guest_access.Store.{
  Entry, Memory, revision_limit, Call, creating, updating, deleting, deleting_revision, apply,
  apply_all, lookup,
}
use nats_guest_access.Store.Table.{with_prefix}
use nats_guest_access.Store.Revisions.{
  IsFresh, IsFresh-apply, revision-apply, Seen, Seen-now, Seen-apply,
}
use nats_guest_access.World
use nats_guest_access.World.{
  World, Action, CleanupRequest, note_answer, or_fail, first, quiet, settle, Fault, reliable,
  refused, reply_lost, ◌>>=◌,
}
use nats_guest_access.World.Logic.{Assertion, Fact, nothing, ◌&◌, Sound, Post, Keeps}
use nats_guest_access.World.Rules.{Step, Keeps-perform, Keeps-bind_result, plain}

-- That `e` was read under the key.
abbrev pub read : {V : Type 0} → String → Entry V → Fact V
read k e = record {
  holds = λ m done. Seen k e m;
  call_keeps = λ c m done h x. Seen-apply c h x;
  answer_keeps = λ r m done x. x;
}

abbrev pub KeysHavePrefix : {V : Type 0} → String → List (String × V) → Type 0
KeysHavePrefix p [] = Unit
KeysHavePrefix p ((k, v) ∷ l) = (has_prefix p k ≡ true) × KeysHavePrefix p l

KeysHavePrefix-with_prefix :
    {V : Type 0} (p : String) (l : List (String × V)) → KeysHavePrefix p (with_prefix p l)
unfolding with_prefix
KeysHavePrefix-with_prefix p [] = tt
KeysHavePrefix-with_prefix p ((k, v) ∷ l) = elim (Bool-cases (has_prefix p k)) [
  | inl yes' ↦ rw yes' (yes', KeysHavePrefix-with_prefix p l)
  | inr no' ↦ rw no' (KeysHavePrefix-with_prefix p l)
]

pub settled_list :
    {V : Type 0} (k : String) (fault : Fault) (m n : Memory V) (l : List (String × Entry V))
    → (settle fault m (Store.list k n)).0 ≡ ok l
    → l ≡ with_prefix k n.entries
unfolding Store.list
settled_list k reliable m n l h = cc
settled_list k refused m n l h = absurd (cc)
settled_list k reply_lost m n l h = absurd (cc)

list-KeysHavePrefix :
    {V : Type 0} (k : String) (w : World V) (l : List (String × Entry V))
    → (World.list k w).0 ≡ ok l
    → KeysHavePrefix k l
unfolding World.list
list-KeysHavePrefix k w l h =
    let t = first quiet w.turns in
    let m = apply_all (t.others w.memory) w.memory in
    rw (settled_list k t.fault m m l h) (KeysHavePrefix-with_prefix k m.entries)

-- The call may be made wherever the invariant and the known facts hold.
pub record Permitted {V : Type 0} (I F : Assertion V) (c : Call V) : Type 0 where
  pub at :
      (m : Memory V) (done : List CleanupRequest)
      → m.revision + 1 < revision_limit
      → IsFresh m
      → I m done
      → F m done
      → I (apply c m) done

module _ {V : Type 0} (k : String) where
  get_same : (m : Memory V) → (Store.get k m).1 ≡ m
  unfolding Store.get
  get_same m = ground arith

  get_found : (m : Memory V) (e : Entry V) → (Store.get k m).0 ≡ ok e → lookup k m ≡ some e
  unfolding Store.get
  get_found m e h = ground arith

-- An acknowledgement must not break the invariant.
abbrev pub Patient : {V : Type 0} → Assertion V → Type 0
Patient {V} I =
    (r : CleanupRequest) (m : Memory V) (done : List CleanupRequest) → I m done → I m (r ∷ done)

module _ {V : Type 0} {I : Assertion V} (F : Fact V) where
  answer_keeps :
      (answer : Option ℕ) (r : CleanupRequest) (m : Memory V) (done : List CleanupRequest)
      → Patient I
      → I m done × F.holds m done
      → I m (note_answer answer r done) × F.holds m (note_answer answer r done)
  answer_keeps none r m done k x = x
  answer_keeps (some n) r m done k x = elim (Bool-cases (n == length r.subjects)) [
    | inl full ↦ rw full (k r m done x.0, F.answer_keeps r m done x.1)
    | inr partial ↦ rw partial x
  ]

  untouched : {A : Type 0} (r : Result A) (w : World V) → Sound I F.holds w → Post I F plain r w
  untouched (ok a) w h = λ left.
      let s = h left in
      record {
        counted = s.counted;
        fresh = s.fresh;
        inv = s.inv;
        fact = (s.fact, tt);
        calm = s.calm;
      }
  untouched (err e) w h = h

  -- The world, but for what neither the invariant nor the facts speak of.
  same_store :
      (v w : World V)
      → w.memory ≡ v.memory
      → w.turns ≡ v.turns
      → w.calls ≡ v.calls
      → w.acknowledged ≡ v.acknowledged
      → Sound I F.holds v
      → Sound I F.holds w
  same_store v w em et ec ea h left =
      let s = h (rw (← ec) left) in
      record {
        counted = rw (em, ec) s.counted;
        fresh = rw em s.fresh;
        inv = rw (em, ea) s.inv;
        fact = rw (em, ea) s.fact;
        calm = rw et s.calm;
      }

module _ {V : Type 0} {I : Assertion V} {F : Fact V} where
  Step-call :
      {A : Type 0} (c : Call V) (call : Memory V → Result A × Memory V)
      → ((m : Memory V) → (call m).1 ≡ apply c m)
      → Permitted I F.holds c
      → Step I F call plain
  Step-call c call e ok' = record {
    good = λ m done h g. rw (e m) (
      record {
        fresh = IsFresh-apply c h g.fresh;
        inv = ok'.at m done h g.fresh g.inv g.fact;
        fact = F.call_keeps c m done h g.fact;
      },
      (revision-apply c m h).1,
    );
    gives = λ m done a h g p. tt;
  }

  module _ (k : String) where
    pub Keeps-create :
        (v : V) → Permitted I F.holds (creating k v) → Keeps I F (World.create k v) plain
    unfolding World.create apply
    Keeps-create v ok' =
        Keeps-perform I F plain (Store.create k v)
          (Step-call (creating k v) (Store.create k v) (λ m. refl) ok')

    pub Keeps-update :
        (v : V) (r : ℕ)
        → Permitted I F.holds (updating k v r)
        → Keeps I F (World.update k v r) plain
    unfolding World.update apply
    Keeps-update v r ok' =
        Keeps-perform I F plain (Store.update k v r)
          (Step-call (updating k v r) (Store.update k v r) (λ m. refl) ok')

    pub Keeps-delete : Permitted I F.holds (deleting k) → Keeps I F (World.delete k) plain
    unfolding World.delete apply
    Keeps-delete ok' =
        Keeps-perform I F plain (Store.delete k)
          (Step-call (deleting k) (Store.delete k) (λ m. refl) ok')

    pub Keeps-delete_revision :
        (r : ℕ)
        → Permitted I F.holds (deleting_revision k r)
        → Keeps I F (World.delete_revision k r) plain
    unfolding World.delete_revision apply
    Keeps-delete_revision r ok' =
        Keeps-perform I F plain (Store.delete_revision k r)
          (Step-call (deleting_revision k r) (Store.delete_revision k r) (λ m. refl) ok')

    pub Keeps-get : Keeps I F (World.get k) (read k)
    unfolding World.get
    Keeps-get = Keeps-perform I F (read k) (Store.get k) (record {
      good = λ m done h g. rw (get_same k m) (g, omega arith);
      gives = λ m done e h g p. rw (get_same k m) (Seen-now g.fresh k e (get_found k m e p));
    })

  pub Keeps-list : (k : String) → Keeps I F (World.list k) plain
  unfolding World.list Store.list
  Keeps-list k =
      Keeps-perform I F plain (Store.list k)
        (record { good = λ m done h g. (g, omega arith); gives = λ m done l h g p. tt })

  pub Keeps-now : Keeps I F World.now plain
  unfolding World.now
  Keeps-now = record {
    at = λ w h.
        untouched F (World.now w).0 (World.now w).1
          (same_store F w (World.now w).1 refl refl refl refl h);
  }

  pub Keeps-cleanup : (r : CleanupRequest) → Patient I → Keeps I F (World.cleanup r) plain
  unfolding World.cleanup
  Keeps-cleanup r k = record {
    at = λ w h. untouched F (World.cleanup r w).0 (World.cleanup r w).1 λ left.
        let s = h left in
        let (i, f) =
          answer_keeps F (first none w.answers) r w.memory w.acknowledged k (s.inv, s.fact) in
        record { counted = s.counted; fresh = s.fresh; inv = i; fact = f; calm = s.calm };
  }

module _ {V : Type 0} {I : Assertion V} where
  -- The rest of a block may use that all that was listed has the prefix.
  pub Keeps-list_bind :
      {B : Type 0} {F : Fact V} {f : List (String × Entry V) → Action V B} {H : B → Fact V}
      (k : String)
      → ((l : List (String × Entry V)) → KeysHavePrefix k l → Keeps I (F & nothing) (f l) H)
      → Keeps I F (World.list k >>= f) H
  Keeps-list_bind {F} k kf =
      Keeps-bind_result (KeysHavePrefix k) (list-KeysHavePrefix k) (Keeps-list k) kf

module _ (p : Platform) {I : Assertion p.Bytes} {F : Fact p.Bytes} where
  pub Keeps-new_uuid : Keeps I F (World.new_uuid p) plain
  unfolding World.new_uuid
  Keeps-new_uuid = record {
    at = λ w h.
        untouched F (World.new_uuid p w).0 (World.new_uuid p w).1
          (same_store F w (World.new_uuid p w).1 refl refl refl refl h);
  }

  pub Keeps-random_secret : Keeps I F (World.random_secret p) plain
  unfolding World.random_secret
  Keeps-random_secret = record {
    at = λ w h.
        untouched F (World.random_secret p w).0 (World.random_secret p w).1
          (same_store F w (World.random_secret p w).1 refl refl refl refl h);
  }
