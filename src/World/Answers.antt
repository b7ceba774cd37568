-- ===== src/World/Answers.antt =====
-- What the program logic knows after the cleaner has answered.
use nats_guest_access.Prelude.{
  ℕ, ◌<◌, ◌==◌, ◌≡◌, refl, true, ◌⊎◌, inl, inr, Option, none, some, List, [], ◌∷◌, arith, length,
}
use nats_guest_access.Errors.{cleaner_failed, Result, ok, err}
use nats_guest_access.Store.{revision_limit}
use nats_guest_access.World
use nats_guest_access.World.{World, CleanupRequest, note_answer, or_fail, first}
use nats_guest_access.World.Logic.{Assertion, Fact, Sound, Post, Keeps}
use nats_guest_access.World.Rules.{plain}
use nats_guest_access.World.Primitives.{Patient, Keeps-cleanup}

-- The request is in the log of those that were acknowledged for every subject.
abbrev pub Logged : CleanupRequest → List CleanupRequest → Type 0
Logged r [] = ⊥
Logged r (x ∷ xs) = (x ≡ r) ⊎ Logged r xs

-- What an answer of the cleaner tells.
abbrev pub answered : {V : Type 0} → CleanupRequest → ℕ → Fact V
answered r n = record {
  holds = λ m done. n ≡ length r.subjects → Logged r done;
  call_keeps = λ c m done h x. x;
  answer_keeps = λ other m done x q. inr (x q);
}

Logged-note_answer :
    (answer : Option ℕ) (r : CleanupRequest) (done : List CleanupRequest) (n : ℕ)
    → or_fail cleaner_failed answer ≡ ok n
    → n ≡ length r.subjects
    → Logged r (note_answer answer r done)
Logged-note_answer none r done n h q = absurd (cc)
Logged-note_answer (some k) r done n h q =
    let same : k ≡ n = cc in
    let full : (k == length r.subjects) ≡ true = ground arith in rw full (inl refl)

module _ {V : Type 0} {I : Assertion V} (F : Fact V) where
  informed :
      {A : Type 0} (G : A → Fact V) (r : Result A) (w : World V)
      → ((a : A) → r ≡ ok a → (G a).holds w.memory w.acknowledged)
      → Sound I F.holds w
      → Post I F G r w
  informed G (ok a) w k h = λ left.
      let s = h left in
      record {
        counted = s.counted;
        fresh = s.fresh;
        inv = s.inv;
        fact = (s.fact, k a refl);
        calm = s.calm;
      }
  informed G (err e) w k h = h

  forget_facts : {A : Type 0} (r : Result A) (w : World V) → Post I F plain r w → Sound I F.holds w
  forget_facts (ok a) w h left =
      let s = h left in
      record { counted = s.counted; fresh = s.fresh; inv = s.inv; fact = s.fact.0; calm = s.calm }
  forget_facts (err e) w h left = h left

  pub Keeps-cleanup_answered :
      (r : CleanupRequest) → Patient I → Keeps I F (World.cleanup r) (answered r)
  unfolding World.cleanup
  Keeps-cleanup_answered r k = record {
    at = λ w h.
        informed (answered r) (World.cleanup r w).0 (World.cleanup r w).1
          (λ n q. Logged-note_answer (first none w.answers) r w.acknowledged n q)
          (forget_facts (World.cleanup r w).0 (World.cleanup r w).1
            ((Keeps-cleanup {F = F} r k).at w h));
  }

module _ {V : Type 0} where
  -- What an action's rule says of its result in the world that it left.
  pub result_fact :
      {A : Type 0} (I : Assertion V) (F : Fact V) (G : A → Fact V) (r : Result A) (a : A)
      (w : World V)
      → Post I F G r w
      → r ≡ ok a
      → w.calls < revision_limit
      → (G a).holds w.memory w.acknowledged
  result_fact I F G (ok b) a w h q left = rw (← ok_injective q) ((h left).fact.1)
    where
      ok_injective : {A : Type 0} {a b : A} → ok a ≡ ok b → a ≡ b
      ok_injective e = cc
  result_fact I F G (err e) a w h q left = absurd (cc)
