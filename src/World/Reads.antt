-- ===== src/World/Reads.antt =====
-- The actions that only read: whatever the store holds after them, others alone made.
use nats_guest_access.Prelude.{
  ℕ, zero, suc, ◌+◌, String, ◌≡◌, ◌∙◌, ap, refl, Bool, true, false, List, if◌then◌else◌, inl, inr,
  arith, Option-cases,
}
use nats_guest_access.Store.Table.{find}
use nats_guest_access.Errors.{Sentinel, Result, ok, err}
use nats_guest_access.Store
use nats_guest_access.Store.{Memory, apply_all}
use nats_guest_access.World
use nats_guest_access.World.{
  World, Action, Turn, Fault, first, rest, quiet, settle, reliable, refused, reply_lost, continue,
  ◌>>=◌, pure, give, fail, try, handle, perform,
}

zero_add : (k : ℕ) → 0 + k ≡ k
zero_add k = omega arith

suc_add : (n k : ℕ) → suc n + k ≡ suc (n + k)
suc_add n k = omega arith

module _ {V : Type 0} where
  -- The store and the turns left, after the others acted in the next n turns.
  unfoldable pub others_only : ℕ → Memory V → List (Turn V) → Memory V × List (Turn V)
  others_only zero memory turns = (memory, turns)
  others_only (suc n) memory turns =
      others_only n (apply_all ((first quiet turns).others memory) memory) (rest turns)

  others_only-add :
      (n k : ℕ) (memory : Memory V) (turns : List (Turn V))
      → others_only (n + k) memory turns
        ≡ others_only k (others_only n memory turns).0 (others_only n memory turns).1
  unfolding others_only
  others_only-add zero k memory turns = ap (λ j. others_only j memory turns) (zero_add k)
  others_only-add (suc n) k memory turns =
      ap (λ j. others_only j memory turns) (suc_add n k)
      ∙ others_only-add n k (apply_all ((first quiet turns).others memory) memory) (rest turns)

  -- From one world to the other only others acted, and the cleaner was not asked.
  pub record Watched (w w' : World V) : Type 0 where
    pub turns : ℕ
    pub store : (w'.memory, w'.turns) ≡ others_only turns w.memory w.turns
    pub requests : w'.requests ≡ w.requests

  pub Watched-refl : (w : World V) → Watched w w
  unfolding others_only
  Watched-refl w = record { turns = 0; store = refl; requests = refl }

  pub Watched-trans : (u v w : World V) → Watched u v → Watched v w → Watched u w
  Watched-trans u v w x y = record {
    turns = x.turns + y.turns;
    store = rw (others_only-add x.turns y.turns u.memory u.turns) (rw (← x.store) (y.store));
    requests = y.requests ∙ x.requests;
  }

  pub record Reads {A : Type 0} (m : Action V A) : Type 0 where
    pub at : (w : World V) → Watched w (m w).1

  module _ {A : Type 0} where
    pub Reads-pure : (a : A) → Reads {A = A} (pure a)
    unfolding pure
    Reads-pure a = record { at = Watched-refl }

    pub Reads-give : (r : Result A) → Reads (give r)
    unfolding give
    Reads-give r = record { at = Watched-refl }

    pub Reads-fail : (s : Sentinel) → Reads {A = A} (fail s)
    unfolding fail
    Reads-fail s = record { at = Watched-refl }

    pub Reads-if : (b : Bool) {m n : Action V A} → Reads m → Reads n → Reads (if b then m else n)
    Reads-if true x y = x
    Reads-if false x y = y

    pub Reads-try : {m : Action V A} → Reads m → Reads (try m)
    unfolding try
    Reads-try x = record { at = x.at }

    -- A call that changes nothing itself.
    pub Reads-perform :
        (call : Memory V → Result A × Memory V)
        → ((m : Memory V) → (call m).1 ≡ m)
        → Reads (perform call)
    unfolding perform others_only
    Reads-perform call same = record {
      at = λ w. record {
        turns = 1;
        store =
            ap (λ m. (m, rest w.turns))
              (settled (first quiet w.turns).fault
                (apply_all ((first quiet w.turns).others w.memory) w.memory));
        requests = refl;
      };
    }
      where
        settled : (f : Fault) (m : Memory V) → (settle f m (call m)).1 ≡ m
        settled reliable m = same m
        settled refused m = refl
        settled reply_lost m = same m

  pub Reads-bind :
      {A B : Type 0} {m : Action V A} {f : A → Action V B}
      → Reads m
      → ((a : A) → Reads (f a))
      → Reads (m >>= f)
  unfolding ◌>>=◌
  Reads-bind {A} {B} {m} {f} x y = record {
    at = λ w. Watched-trans w (m w).1 _ (x.at w) (go (m w).0 (m w).1);
  }
    where
      go : (r : Result A) (w : World V) → Watched w (continue r f w).1
      go (ok a) w = (y a).at w
      go (err e) w = Watched-refl w

  pub Reads-get : (key : String) → Reads (World.get key)
  unfolding World.get Store.get
  Reads-get key = Reads-perform (Store.get key) λ m. elim (Option-cases (find key m.entries)) [
    | inl h ↦ rw (h, Store.get) refl
    | inr (entry, h) ↦ rw (h, Store.get) refl
  ]

  pub Reads-list : (prefix : String) → Reads (World.list prefix)
  unfolding World.list Store.list
  Reads-list prefix = Reads-perform (Store.list prefix) λ m. refl
