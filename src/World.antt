-- ===== src/World.antt =====
-- What a request runs in: the store that it shares with other replicas, the clock, the random
-- sources and the cleaner. A handler is an action on a `World`: it ends with a result or an
-- error, and the world as it left it.
pub mod Logic
pub mod Rules
pub mod Primitives
pub mod Answers
pub mod Endings
pub mod Results
pub mod Reads
use nats_guest_access.Prelude.{
  ℕ, ◌+◌, String, Option, none, some, List, [], ◌∷◌, ◌==◌, if◌then◌else◌, length,
}
use nats_guest_access.Errors.{
  Error, Failure, sentinel, failure, Sentinel, backend, randomness, cleaner_failed, Result, ok, err,
}
use nats_guest_access.Store
use nats_guest_access.Store.{Entry, Memory, Call, apply_all}
use nats_guest_access.Platform.{Platform}

-- A store call may fail on the way: it is not performed, or it is performed and its reply lost.
pub data Fault : Type 0 where
  reliable refused reply_lost : Fault

-- What comes with one store call: the calls that others make just before it, which may depend on
-- all that the store then holds, and its fault.
pub record Turn (V : Type 0) : Type 0 where
  pub others : Memory V → List (Call V)
  pub fault : Fault

-- The arguments of Cleaner.Cleanup.
pub record CleanupRequest : Type 0 where
  pub deletion_id : String
  pub application_id : String
  pub event_id : String
  pub subjects : List String
  pub reason : String

pub record World (V : Type 0) : Type 0 where
  pub memory : Memory V
  pub turns : List (Turn V)
  pub calls : ℕ  -- the writing calls made so far, by this request and by others
  pub time : ℕ
  pub ticks : List ℕ  -- by how much the clock advances at each reading
  pub uuids : ℕ  -- how many were drawn
  pub secrets : ℕ  -- how many were drawn
  pub answers : List (Option ℕ)  -- what the cleaner returns, `none` for an error
  pub requests : List CleanupRequest  -- what the cleaner was asked, the last first
  pub acknowledged : List CleanupRequest  -- those that it answered for every subject

abbrev pub Action : Type 0 → Type 0 → Type 0
Action V A = World V → Result A × World V

module _ {V : Type 0} {A B : Type 0} where
  abbrev pub continue : Result A → (A → Action V B) → Action V B
  continue (ok a) f w = f a w
  continue (err e) f w = (err e, w)

  infixl 10 ◌>>=◌ ◌>>◌
  unfoldable pub ◌>>=◌ : Action V A → (A → Action V B) → Action V B
  ◌>>=◌ m f w = let (r, w') = m w in continue r f w'

  abbrev pub ◌>>◌ : Action V A → Action V B → Action V B
  m >> n = m >>= λ _. n

-- The head of a script, with a default for when it has run out, and its tail.
abbrev pub first {ℓ} : {A : Type ℓ} → A → List A → A
first d [] = d
first d (x ∷ xs) = x

abbrev pub rest {ℓ} : {A : Type ℓ} → List A → List A
rest [] = []
rest (x ∷ xs) = xs

-- With no turn left nobody else acts, and no call fails.
abbrev pub quiet : {V : Type 0} → Turn V
quiet = record { others = λ m. []; fault = reliable }

-- What the caller sees of a store call, and what the call left in the store.
abbrev pub settle : {A V : Type 0} → Fault → Memory V → Result A × Memory V → Result A × Memory V
settle reliable before after = after
settle refused before after = (err (failure backend), before)
settle reply_lost before after = (err (failure backend), after.1)

abbrev pub or_fail : {A : Type 0} → Failure → Option A → Result A
or_fail f none = err (failure f)
or_fail f (some a) = ok a

abbrev pub note_answer : Option ℕ → CleanupRequest → List CleanupRequest → List CleanupRequest
note_answer none request done = done
note_answer (some n) request done = if n == length request.subjects then request ∷ done else done

module _ {V : Type 0} {A : Type 0} where
  unfoldable pub pure : A → Action V A
  pure a w = (ok a, w)

  unfoldable pub give : Result A → Action V A
  give r w = (r, w)

  unfoldable pub fail : Sentinel → Action V A
  fail s w = (err (sentinel s), w)

  -- The result of an action as a value, for code that looks at the error and goes on.
  unfoldable pub try : Action V A → Action V (Result A)
  try m w = let (r, w') = m w in (ok r, w')

module _ {V A B : Type 0} where
  -- What follows on a success, and what on an error.
  unfoldable pub handle : Result A → (A → Action V B) → (Error → Action V B) → Action V B
  handle (ok a) f g = f a
  handle (err e) f g = g e

module _ {V A : Type 0} where
  -- One call of the store: the others' calls come first.
  unfoldable pub perform : (Memory V → Result A × Memory V) → Action V A
  perform call w =
      let turn = first quiet w.turns in
      let others = turn.others w.memory in
      let before = apply_all others w.memory in
      let (r, after) = settle turn.fault before (call before) in
      (
        r,
        record w {
          memory = after;
          turns = rest w.turns;
          calls = w.calls + Store.count_calls others + 1;
        },
      )

module _ {V : Type 0} where
  unfoldable pub get : String → Action V (Entry V)
  unfolding perform
  get key = perform (Store.get key)

  unfoldable pub create : String → V → Action V ℕ
  unfolding perform
  create key value = perform (Store.create key value)

  unfoldable pub update : String → V → ℕ → Action V ℕ
  unfolding perform
  update key value revision = perform (Store.update key value revision)

  unfoldable pub delete : String → Action V (Unit {0})
  unfolding perform
  delete key = perform (Store.delete key)

  unfoldable pub delete_revision : String → ℕ → Action V (Unit {0})
  unfolding perform
  delete_revision key revision = perform (Store.delete_revision key revision)

  unfoldable pub list : String → Action V (List (String × Entry V))
  unfolding perform
  list prefix = perform (Store.list prefix)

  abbrev pub read_clock : World V → ℕ × World V
  read_clock w =
      let t = w.time + first 0 w.ticks in (t, record w { time = t; ticks = rest w.ticks })

  -- s.now().UTC()
  unfoldable pub now : Action V ℕ
  now w = let (t, w') = read_clock w in (ok t, w')

  -- s.cleaner.Cleanup
  unfoldable pub cleanup : CleanupRequest → Action V ℕ
  cleanup request w =
      let answer = first none w.answers in
      (
        or_fail cleaner_failed answer,
        record w {
          answers = rest w.answers;
          requests = request ∷ w.requests;
          acknowledged = note_answer answer request w.acknowledged;
        },
      )

module _ (p : Platform) where
  -- uuid.NewString()
  unfoldable pub new_uuid : Action p.Bytes String
  new_uuid w = (ok (p.uuid w.uuids), record w { uuids = w.uuids + 1 })

  -- internal/access: randomSecret
  unfoldable pub random_secret : Action p.Bytes String
  random_secret w = (or_fail randomness (p.secret w.secrets), record w { secrets = w.secrets + 1 })
