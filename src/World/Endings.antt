-- ===== src/World/Endings.antt =====
-- A logic for how actions with fuel end.
use nats_guest_access.Prelude.{◌≡◌, ◌≢◌, refl, Bool, true, false, if◌then◌else◌}
use nats_guest_access.Errors.{failure, out_of_fuel, Result, ok, err}
use nats_guest_access.World.{World, Action, ◌>>=◌, pure, give, try, continue}

abbrev pub Enough : {A : Type 0} → Result A → Type 0
Enough r = r ≢ err (failure out_of_fuel)

module _ {V : Type 0} where
  -- From a world with `P` the action does not run out of fuel.
  pub record Lasts {A : Type 0} (P : World V → Type 0) (m : Action V A) : Type 0 where
    pub at : (w : World V) → P w → Enough (m w).0

  -- The same, and what holds where it goes on.
  pub record Leads {A : Type 0} (P : World V → Type 0) (m : Action V A) (Q : A → World V → Type 0)
      : Type 0 where
    pub enough : (w : World V) → P w → Enough (m w).0
    pub next : (w : World V) → P w → (a : A) → (m w).0 ≡ ok a → Q a (m w).1

  pub Lasts-bind :
      {A B : Type 0} {P : World V → Type 0} {m : Action V A} {f : A → Action V B}
      {Q : A → World V → Type 0}
      → Leads P m Q
      → ((a : A) → Lasts (Q a) (f a))
      → Lasts P (m >>= f)
  unfolding ◌>>=◌
  Lasts-bind {A} {B} {P} {m} {f} {Q} lm lf = record {
    at = λ w h. go (m w).0 (m w).1 (lm.enough w h) (lm.next w h);
  }
    where
      go :
          (r : Result A) (w : World V)
          → Enough r
          → ((a : A) → r ≡ ok a → Q a w)
          → Enough (continue r f w).0
      go (ok a) w e k = (lf a).at w (k a refl)
      go (err x) w e k = λ q. e (cc)

  pub Leads-try :
      {A : Type 0} {P : World V → Type 0} (m : Action V A) {Q : Result A → World V → Type 0}
      → ((w : World V) → P w → Q (m w).0 (m w).1)
      → Leads P (try m) Q
  unfolding try
  Leads-try {A} {P} m {Q} k = record {
    enough = λ w h q. absurd (cc);
    next = λ w h r q. rw (← ok_injective q) (k w h);
  }
    where
      ok_injective : {A : Type 0} {a b : A} → ok a ≡ ok b → a ≡ b
      ok_injective e = cc

  pub Lasts-check :
      {A B : Type 0} {P : World V → Type 0} {f : A → Action V B} (r : Result A)
      → Enough r
      → ((a : A) → r ≡ ok a → Lasts P (f a))
      → Lasts P (give r >>= f)
  unfolding ◌>>=◌ give
  Lasts-check (ok a) e k = record { at = λ w h. (k a refl).at w h }
  Lasts-check (err x) e k = record { at = λ w h q. e (cc) }

  pub Lasts-if :
      {A : Type 0} {P : World V → Type 0} (b : Bool) {m n : Action V A}
      → (b ≡ true → Lasts P m)
      → (b ≡ false → Lasts P n)
      → Lasts P (if b then m else n)
  Lasts-if true lm ln = lm refl
  Lasts-if false lm ln = ln refl

  pub Lasts-pure : {A : Type 0} {P : World V → Type 0} (a : A) → Lasts P (pure a)
  unfolding pure
  Lasts-pure a = record { at = λ w h q. absurd (cc) }

  pub Lasts-give : {A : Type 0} {P : World V → Type 0} (r : Result A) → Enough r → Lasts P (give r)
  unfolding give
  Lasts-give r e = record { at = λ w h. e }
