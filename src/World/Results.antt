-- ===== src/World/Results.antt =====
-- What is known of an action's result, in whatever world it runs and whatever others do.
use nats_guest_access.Prelude.{◌≡◌, refl, Bool, true, false, if◌then◌else◌}
use nats_guest_access.Errors.{Error, Sentinel, Result, ok, err}
use nats_guest_access.World.{World, Action, ◌>>=◌, pure, give, fail, handle, continue}

-- Where the first part of a program ends with a result, the program goes on with it.
pub bind_ok :
    {V A B : Type 0} (m : Action V A) (f : A → Action V B) (w : World V) (a : A)
    → (m w).0 ≡ ok a
    → (m >>= f) w ≡ f a (m w).1
unfolding ◌>>=◌
bind_ok {A} m f w a q = go (m w).0 q
  where
    go : (r : Result A) → r ≡ ok a → continue r f (m w).1 ≡ f a (m w).1
    go r q = rw q refl

-- A program that ends with a result has one of its first part.
pub first_result :
    {V A B : Type 0} (m : Action V A) (f : A → Action V B) (w : World V) (b : B)
    → ((m >>= f) w).0 ≡ ok b
    → (a : A) × ((m w).0 ≡ ok a)
unfolding ◌>>=◌
first_result {A} m f w b h = go (m w).0 h
  where
    go : (r : Result A) → (continue r f (m w).1).0 ≡ ok b → (a : A) × (r ≡ ok a)
    go (ok a) h = (a, refl)
    go (err e) h = absurd (cc)

-- Every result of `m`, if it is not an error, has the property.
pub record Gives {V A : Type 0} (m : Action V A) (P : A → Type 0) : Type 0 where
  pub at : (w : World V) (a : A) → (m w).0 ≡ ok a → P a

module _ {V : Type 0} where
  pub Gives-bind_with :
      {A B : Type 0} {m : Action V A} {f : A → Action V B} {P : B → Type 0} (Q : A → Type 0)
      → Gives m Q
      → ((a : A) → Q a → Gives (f a) P)
      → Gives (m >>= f) P
  unfolding ◌>>=◌
  Gives-bind_with {A} {B} {m} {f} {P} Q gm gf = record {
    at = λ w b h. go (m w).0 (m w).1 (λ a q. gm.at w a q) b h;
  }
    where
      go :
          (r : Result A) (w : World V)
          → ((a : A) → r ≡ ok a → Q a)
          → (b : B) → (continue r f w).0 ≡ ok b
          → P b
      go (ok a) w k b h = (gf a (k a refl)).at w b h
      go (err e) w k b h = absurd (cc)

  pub Gives-bind :
      {A B : Type 0} (m : Action V A) {f : A → Action V B} {P : B → Type 0}
      → ((a : A) → Gives (f a) P)
      → Gives (m >>= f) P
  Gives-bind m gf = Gives-bind_with {m = m} (λ a. Unit) (record { at = λ w a h. tt }) (λ a q. gf a)

  pub Gives-check :
      {A B : Type 0} {f : A → Action V B} {P : B → Type 0} (r : Result A)
      → ((a : A) → r ≡ ok a → Gives (f a) P)
      → Gives (give r >>= f) P
  unfolding give
  Gives-check r gf = Gives-bind_with (λ a. r ≡ ok a) (record { at = λ w a h. h }) gf

  pub Gives-pure : {A : Type 0} {P : A → Type 0} (a : A) → P a → Gives {V = V} (pure a) P
  unfolding pure
  Gives-pure {P} a p = record { at = λ w b h. rw (← ok_injective h) p }
    where
      ok_injective : {A : Type 0} {a b : A} → ok a ≡ ok b → a ≡ b
      ok_injective h = cc

  pub Gives-fail : {A : Type 0} {P : A → Type 0} (s : Sentinel) → Gives {V = V} (fail s) P
  unfolding fail
  Gives-fail s = record { at = λ w b h. absurd (cc) }

  pub Gives-error : {A : Type 0} {P : A → Type 0} (e : Error) → Gives {V = V} (give (err e)) P
  unfolding give
  Gives-error e = record { at = λ w b h. absurd (cc) }

  pub Gives-if :
      {A : Type 0} {P : A → Type 0} (b : Bool) {m n : Action V A}
      → (b ≡ true → Gives m P)
      → (b ≡ false → Gives n P)
      → Gives (if b then m else n) P
  Gives-if true gm gn = gm refl
  Gives-if false gm gn = gn refl

  pub Gives-handle :
      {A B : Type 0} {P : B → Type 0} (r : Result A) {f : A → Action V B} {g : Error → Action V B}
      → ((a : A) → r ≡ ok a → Gives (f a) P)
      → ((e : Error) → r ≡ err e → Gives (g e) P)
      → Gives (handle r f g) P
  unfolding handle
  Gives-handle (ok a) gf gg = gf a refl
  Gives-handle (err e) gf gg = gg e refl

  pub Gives-give :
      {A : Type 0} {P : A → Type 0} (r : Result A)
      → ((a : A) → r ≡ ok a → P a)
      → Gives {V = V} (give r) P
  unfolding give
  Gives-give r k = record { at = λ w a h. k a h }
