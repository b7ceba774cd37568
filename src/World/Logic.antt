-- ===== src/World/Logic.antt =====
-- A program logic for handlers that run among others. An invariant holds of the store between any
-- two calls, as long as what others do keeps it too; a fact, once true, survives every call.
use nats_guest_access.Prelude.{◌+◌, ◌≤◌, ◌<◌, List, [], ◌∷◌}
use nats_guest_access.Errors.{Result, ok, err}
use nats_guest_access.Store.{Memory, revision_limit, Call, apply, apply_all, count_calls}
use nats_guest_access.Store.Revisions.{IsFresh}
use nats_guest_access.World.{World, Action, Turn, CleanupRequest}

-- A predicate on the store and on the cleanups that were acknowledged in full.
abbrev pub Assertion : Type 0 → Type 1
Assertion V = Memory V → List CleanupRequest → Type 0

-- What others do keeps the invariant, in whatever store they find.
abbrev pub Respects : {V : Type 0} → Assertion V → (Memory V → List (Call V)) → Type 0
Respects {V} I others =
    (m : Memory V) (done : List CleanupRequest)
    → m.revision + count_calls (others m) < revision_limit
    → IsFresh m
    → I m done
    → I (apply_all (others m) m) done

-- What others do in the turns to come keeps the invariant.
abbrev pub Calm : {V : Type 0} → Assertion V → List (Turn V) → Type 0
Calm I [] = Unit
Calm I (t ∷ ts) = Respects I t.others × Calm I ts

-- A fact that no call and no acknowledgement can undo.
pub record Fact (V : Type 0) : Type 1 where
  pub holds : Assertion V
  pub call_keeps :
      (c : Call V) (m : Memory V) (done : List CleanupRequest)
      → m.revision + 1 < revision_limit
      → holds m done
      → holds (apply c m) done
  pub answer_keeps :
      (r : CleanupRequest) (m : Memory V) (done : List CleanupRequest)
      → holds m done
      → holds m (r ∷ done)

abbrev pub nothing : {V : Type 0} → Fact V
nothing = record {
  holds = λ m done. Unit;
  call_keeps = λ c m done h x. tt;
  answer_keeps = λ r m done x. tt;
}

infixr 20 ◌&◌
abbrev pub ◌&◌ : {V : Type 0} → Fact V → Fact V → Fact V
f & g = record {
  holds = λ m done. f.holds m done × g.holds m done;
  call_keeps = λ c m done h x. (f.call_keeps c m done h x.0, g.call_keeps c m done h x.1);
  answer_keeps = λ r m done x. (f.answer_keeps r m done x.0, g.answer_keeps r m done x.1);
}

module _ {V : Type 0} where
  -- The world at a moment at which fewer calls were made than there are revisions.
  pub record IsSound (I : Assertion V) (F : Assertion V) (w : World V) : Type 0 where
    pub counted : w.memory.revision ≤ w.calls
    pub fresh : IsFresh w.memory
    pub inv : I w.memory w.acknowledged
    pub fact : F w.memory w.acknowledged
    pub calm : Calm I w.turns

  abbrev pub Sound : Assertion V → Assertion V → World V → Type 0
  Sound I F w = w.calls < revision_limit → IsSound I F w

  abbrev pub Post : {A : Type 0} → Assertion V → Fact V → (A → Fact V) → Result A → World V → Type 0
  Post I F G (ok a) w = Sound I (F & G a).holds w
  Post I F G (err e) w = Sound I F.holds w

  -- From a sound world in which `F` holds, `m` leads to a sound world in which `F` still holds,
  -- and `G` of the result if there is one.
  pub record Keeps {A : Type 0} (I : Assertion V) (F : Fact V) (m : Action V A) (G : A → Fact V)
      : Type 0 where
    pub at : (w : World V) → Sound I F.holds w → Post I F G (m w).0 (m w).1
