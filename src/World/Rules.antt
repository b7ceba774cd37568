-- ===== src/World/Rules.antt =====
-- The rules of the program logic, one for each way to build a handler.
use nats_guest_access.Prelude.{
  ◌+◌, ◌≤◌, ◌<◌, ◌≡◌, refl, Bool, true, false, List, [], ◌∷◌, arith, if◌then◌else◌,
}
use nats_guest_access.Errors.{Error, Sentinel, Result, ok, err}
use nats_guest_access.Store.{Memory, revision_limit, Call, apply, apply_all, count_calls}
use nats_guest_access.Store.Revisions.{IsFresh, IsFresh-apply, revision-apply}
use nats_guest_access.World.{
  World, Action, Turn, CleanupRequest, Fault, reliable, refused, reply_lost, first, rest, quiet,
  settle, perform, continue, ◌>>=◌, pure, give, fail, try, handle,
}
use nats_guest_access.World.Logic.{
  Assertion, Respects, Calm, Fact, nothing, ◌&◌, IsSound, Sound, Post, Keeps,
}

module _ {V : Type 0} (I : Assertion V) (F : Fact V) (done : List CleanupRequest) where
  -- A store in which the invariant and the fact hold.
  pub record IsGood (m : Memory V) : Type 0 where
    pub fresh : IsFresh m
    pub inv : I m done
    pub fact : F.holds m done

  -- What calls leave as it was, whatever they are.
  stable_apply_all :
      (cs : List (Call V)) (m : Memory V)
      → m.revision + count_calls cs < revision_limit
      → IsFresh m
      → F.holds m done
      → IsFresh (apply_all cs m)
        × F.holds (apply_all cs m) done
        × ((apply_all cs m).revision ≤ m.revision + count_calls cs)
  unfolding apply_all
  stable_apply_all [] m h fresh fact = (fresh, fact, omega arith)
  stable_apply_all (c ∷ cs) m h fresh fact =
      let h' : m.revision + 1 < revision_limit = omega arith in
      let up = revision-apply c m h' in
      let (fresh', fact', le) =
        stable_apply_all cs (apply c m) (omega (arith, up)) (IsFresh-apply c h' fresh)
          (F.call_keeps c m done h' fact) in
      (fresh', fact', omega (arith, up, le))

  IsGood-apply_all :
      (others : Memory V → List (Call V)) (m : Memory V)
      → m.revision + count_calls (others m) < revision_limit
      → Respects I others
      → IsGood m
      → IsGood (apply_all (others m) m)
        × ((apply_all (others m) m).revision ≤ m.revision + count_calls (others m))
  IsGood-apply_all others m h r g =
      let (fresh, fact, le) = stable_apply_all (others m) m h g.fresh g.fact in
      (record { fresh = fresh; inv = r m done h g.fresh g.inv; fact = fact }, le)

-- What a store call must do for the rule of `perform`.
pub record Step {V A : Type 0} (I : Assertion V) (F : Fact V)
    (call : Memory V → Result A × Memory V) (G : A → Fact V) : Type 0 where
  pub good :
      (m : Memory V) (done : List CleanupRequest)
      → m.revision + 1 < revision_limit
      → IsGood I F done m
      → IsGood I F done (call m).1 × ((call m).1.revision ≤ m.revision + 1)
  pub gives :
      (m : Memory V) (done : List CleanupRequest) (a : A)
      → m.revision + 1 < revision_limit
      → IsGood I F done m
      → (call m).0 ≡ ok a
      → (G a).holds (call m).1 done

module _ {V : Type 0} (I : Assertion V) where
  first-Calm : (ts : List (Turn V)) → Calm I ts → Respects I (first quiet ts).others
  unfolding apply_all
  first-Calm [] c = λ m done h fresh i. i
  first-Calm (t ∷ ts) c = c.0

  rest-Calm : (ts : List (Turn V)) → Calm I ts → Calm I (rest ts)
  rest-Calm [] c = tt
  rest-Calm (t ∷ ts) c = c.1

module _ {V : Type 0} (I : Assertion V) (F : Fact V) where
  sound :
      (w : World V)
      → w.memory.revision ≤ w.calls
      → Calm I w.turns
      → IsGood I F w.acknowledged w.memory
      → IsSound I F.holds w
  sound w le calm g = record {
    counted = le;
    fresh = g.fresh;
    inv = g.inv;
    fact = g.fact;
    calm = calm;
  }

  module _ {A : Type 0} (G : A → Fact V) where
    given :
        (r : Result A) (w : World V)
        → w.memory.revision ≤ w.calls
        → Calm I w.turns
        → IsGood I F w.acknowledged w.memory
        → ((a : A) → r ≡ ok a → (G a).holds w.memory w.acknowledged)
        → Post I F G r w
    given (ok a) w le calm g k = λ _. record {
      counted = le;
      fresh = g.fresh;
      inv = g.inv;
      fact = (g.fact, k a refl);
      calm = calm;
    }
    given (err e) w le calm g k = λ _. sound w le calm g

    settled :
        (call : Memory V → Result A × Memory V)
        → Step I F call G
        → (fault : Fault) (m : Memory V) (w : World V) → w.memory ≡ (settle fault m (call m)).1
        → m.revision + 1 < revision_limit
        → m.revision + 1 ≤ w.calls
        → Calm I w.turns
        → IsGood I F w.acknowledged m
        → Post I F G (settle fault m (call m)).0 w
    settled call s reliable m w e h le calm g =
        let (good, up) = s.good m w.acknowledged h g in
        given (call m).0 w (rw e (omega (arith, up))) calm (rw e good)
          (λ a q. rw e (s.gives m w.acknowledged a h g q))
    settled call s refused m w e h le calm g = λ _. sound w (rw e (omega arith)) calm (rw e g)
    settled call s reply_lost m w e h le calm g =
        let (good, up) = s.good m w.acknowledged h g in
        λ _. sound w (rw e (omega (arith, up))) calm (rw e good)

    -- A postcondition may be proved for a world in which revisions have not run out.
    while_left :
        (r : Result A) (w : World V) → (w.calls < revision_limit → Post I F G r w) → Post I F G r w
    while_left (ok a) w k = λ left. k left left
    while_left (err e) w k = λ left. k left left

    pub Keeps-perform :
        (call : Memory V → Result A × Memory V) → Step I F call G → Keeps I F (perform call) G
    unfolding perform
    Keeps-perform call s = record {
      at = λ w h. while_left (perform call w).0 (perform call w).1 λ left.
          let turn = first quiet w.turns in
          let sw = h (omega arith) in
          let g : IsGood I F w.acknowledged w.memory = record {
            fresh = sw.fresh;
            inv = sw.inv;
            fact = sw.fact;
          } in
          let (g', le) =
            IsGood-apply_all I F w.acknowledged turn.others w.memory (omega (arith, sw.counted))
              (first-Calm I w.turns sw.calm) g in
          let counted = sw.counted in
          settled call s turn.fault (apply_all (turn.others w.memory) w.memory) (perform call w).1
            refl (omega arith) (omega arith) (rest-Calm I w.turns sw.calm) g';
    }

    pub Keeps-give :
        (r : Result A)
        → ((a : A)
            → r ≡ ok a
            → (m : Memory V) (done : List CleanupRequest) → F.holds m done
            → (G a).holds m done)
        → Keeps I F (give r) G
    unfolding give
    Keeps-give (ok a) k = record {
      at = λ w h left.
          let s = h left in
          record {
            counted = s.counted;
            fresh = s.fresh;
            inv = s.inv;
            fact = (s.fact, k a refl w.memory w.acknowledged s.fact);
            calm = s.calm;
          };
    }
    Keeps-give (err e) k = record { at = λ w h. h }

-- What a `try` tells: the facts of the result if there is one.
abbrev pub tried : {V A : Type 0} → (A → Fact V) → Result A → Fact V
tried G (ok a) = G a
tried G (err e) = nothing

-- An action without facts about its result.
abbrev pub plain : {V A : Type 0} → A → Fact V
plain a = nothing

module _ {V : Type 0} (I : Assertion V) where
  reword :
      (F K : Assertion V) (w : World V)
      → ((m : Memory V) (done : List CleanupRequest) → F m done → K m done)
      → Sound I F w
      → Sound I K w
  reword F K w k h left =
      let s = h left in
      record {
        counted = s.counted;
        fresh = s.fresh;
        inv = s.inv;
        fact = k w.memory w.acknowledged s.fact;
        calm = s.calm;
      }

  -- Facts that were only needed on the way are dropped.
  drop_fact :
      {A : Type 0} (F K : Fact V) (H : A → Fact V) (r : Result A) (w : World V)
      → Post I (F & K) H r w
      → Post I F H r w
  drop_fact F K H (ok a) w h =
      reword (λ m d. (F.holds m d × K.holds m d) × (H a).holds m d)
        (λ m d. F.holds m d × (H a).holds m d) w (λ m d x. (x.0.0, x.1)) h
  drop_fact F K H (err e) w h = reword (λ m d. F.holds m d × K.holds m d) F.holds w (λ m d x. x.0) h

module _ {V : Type 0} {I : Assertion V} where
  pub Keeps-bind :
      {A B : Type 0} {F : Fact V} {m : Action V A} {f : A → Action V B} {G : A → Fact V}
      {H : B → Fact V}
      → Keeps I F m G
      → ((a : A) → Keeps I (F & G a) (f a) H)
      → Keeps I F (m >>= f) H
  unfolding ◌>>=◌
  Keeps-bind {A} {B} {F} {m} {f} {G} {H} km kf = record {
    at = λ w h. go (m w).0 (m w).1 (km.at w h);
  }
    where
      go :
          (r : Result A) (w : World V)
          → Post I F G r w
          → Post I F H (continue r f w).0 (continue r f w).1
      go (ok a) w h = drop_fact I F (G a) H (f a w).0 (f a w).1 ((kf a).at w h)
      go (err e) w h = h

  -- The same, where something is known of every result.
  pub Keeps-bind_result :
      {A B : Type 0} {F : Fact V} {m : Action V A} {f : A → Action V B} {G : A → Fact V}
      {H : B → Fact V} (P : A → Type 0)
      → ((w : World V) (a : A) → (m w).0 ≡ ok a → P a)
      → Keeps I F m G
      → ((a : A) → P a → Keeps I (F & G a) (f a) H)
      → Keeps I F (m >>= f) H
  unfolding ◌>>=◌
  Keeps-bind_result {A} {B} {F} {m} {f} {G} {H} P results km kf = record {
    at = λ w h. go (m w).0 (m w).1 (results w) (km.at w h);
  }
    where
      go :
          (r : Result A) (w : World V)
          → ((a : A) → r ≡ ok a → P a)
          → Post I F G r w
          → Post I F H (continue r f w).0 (continue r f w).1
      go (ok a) w k h = drop_fact I F (G a) H (f a w).0 (f a w).1 ((kf a (k a refl)).at w h)
      go (err e) w k h = h

  pub Keeps-try :
      {A : Type 0} {F : Fact V} {m : Action V A} {G : A → Fact V}
      → Keeps I F m G
      → Keeps I F (try m) (tried G)
  unfolding try
  Keeps-try {A} {F} {m} {G} km = record { at = λ w h. go (m w).0 (m w).1 (km.at w h) }
    where
      go : (r : Result A) (w : World V) → Post I F G r w → Sound I (F & tried G r).holds w
      go (ok a) w h = h
      go (err e) w h = reword I F.holds (λ m d. F.holds m d × Unit) w (λ m d x. (x, tt)) h

  -- The facts of a result may be weakened.
  pub Keeps-result :
      {A : Type 0} {F : Fact V} {m : Action V A} {G H : A → Fact V}
      → ((a : A) (m : Memory V) (done : List CleanupRequest)
          → F.holds m done
          → (G a).holds m done
          → (H a).holds m done)
      → Keeps I F m G
      → Keeps I F m H
  Keeps-result {A} {F} {m} {G} {H} k km = record { at = λ w h. go (m w).0 (m w).1 (km.at w h) }
    where
      go : (r : Result A) (w : World V) → Post I F G r w → Post I F H r w
      go (ok a) w h =
          reword I (λ m d. F.holds m d × (G a).holds m d) (λ m d. F.holds m d × (H a).holds m d) w
            (λ m d x. (x.0, k a m d x.0 x.1)) h
      go (err e) w h = h

module _ {V : Type 0} {I : Assertion V} where
  pub Keeps-pure :
      {A : Type 0} {F : Fact V} {G : A → Fact V} (a : A)
      → ((m : Memory V) (done : List CleanupRequest) → F.holds m done → (G a).holds m done)
      → Keeps I F (pure a) G
  unfolding pure
  Keeps-pure {F} {G} a k = record {
    at = λ w h. reword I F.holds (λ m d. F.holds m d × (G a).holds m d) w (λ m d x. (x, k m d x)) h;
  }

  pub Keeps-handle :
      {A B : Type 0} {F : Fact V} {G : B → Fact V} (r : Result A) {f : A → Action V B}
      {g : Error → Action V B}
      → ((a : A) → r ≡ ok a → Keeps I F (f a) G)
      → ((e : Error) → r ≡ err e → Keeps I F (g e) G)
      → Keeps I F (handle r f g) G
  unfolding handle
  Keeps-handle (ok a) kf kg = kf a refl
  Keeps-handle (err e) kf kg = kg e refl

  pub Keeps-fail : {A : Type 0} {F : Fact V} {G : A → Fact V} (s : Sentinel) → Keeps I F (fail s) G
  unfolding fail
  Keeps-fail s = record { at = λ w h. h }

  pub Keeps-error :
      {A : Type 0} {F : Fact V} {G : A → Fact V} (e : Error) → Keeps I F (give (err e)) G
  unfolding give
  Keeps-error e = record { at = λ w h. h }

  pub Keeps-if :
      {A : Type 0} {F : Fact V} {G : A → Fact V} (b : Bool) {m n : Action V A}
      → (b ≡ true → Keeps I F m G)
      → (b ≡ false → Keeps I F n G)
      → Keeps I F (if b then m else n) G
  Keeps-if true km kn = km refl
  Keeps-if false km kn = kn refl

  -- Results of which nothing is said.
  pub Keeps-done : {A : Type 0} {F : Fact V} (a : A) → Keeps I F (pure a) plain
  Keeps-done a = Keeps-pure a (λ m d x. tt)

  pub Keeps-plain : {A : Type 0} {F : Fact V} (r : Result A) → Keeps I F (give r) plain
  Keeps-plain {F} r = Keeps-give I F plain r (λ a e m d x. tt)

  pub Keeps-weaker :
      {A : Type 0} {F : Fact V} {m : Action V A} {G : A → Fact V}
      → Keeps I F m G
      → Keeps I F m plain
  Keeps-weaker km = Keeps-result (λ a m done x y. tt) km

  -- The rest of a block may use that a computed result is no error.
  pub Keeps-check :
      {A B : Type 0} {F : Fact V} {f : A → Action V B} {H : B → Fact V} (r : Result A)
      → ((a : A) → r ≡ ok a → Keeps I F (f a) H)
      → Keeps I F (give r >>= f) H
  unfolding ◌>>=◌ give
  Keeps-check (ok a) k = record { at = λ w h. (k a refl).at w h }
  Keeps-check (err e) k = record { at = λ w h. h }

  -- A fact that follows from the known ones.
  pub Keeps-know :
      {A : Type 0} {F : Fact V} {m : Action V A} {G : A → Fact V} (K : Fact V)
      → ((m : Memory V) (done : List CleanupRequest) → F.holds m done → K.holds m done)
      → Keeps I (F & K) m G
      → Keeps I F m G
  Keeps-know {F} {m} {G} K k km = record {
    at = λ w h.
        drop_fact I F K G (m w).0 (m w).1 (
          km.at w
            (reword I F.holds (λ n d. F.holds n d × K.holds n d) w (λ n d x. (x, k n d x)) h));
  }

pub tried-ok :
    {V A : Type 0} (G : A → Fact V) (r : Result A) (a : A) (m : Memory V)
    (done : List CleanupRequest)
    → r ≡ ok a
    → (tried G r).holds m done
    → (G a).holds m done
tried-ok G r a m done e x = rw e at x
