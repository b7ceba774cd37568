-- ===== src/Access/Results/Guarded.antt =====
-- internal/access/service.go: the guards of SetState.
use nats_guest_access.Prelude.{
  ℕ, String, ◌≡◌, ◌∙◌, sym, ap, Bool, true, false, not, ◌&&◌, ◌⊎◌, inl, inr, arith, Bool-cases,
  eq_iff,
}
use nats_guest_access.Errors.{ok}
use nats_guest_access.Model.{EventState, other_state, operate, Event}
use nats_guest_access.Platform.{Platform}
use nats_guest_access.World.{World}
use nats_guest_access.World.Results.{Gives, Gives-fail, Gives-if, bind_ok}
use nats_guest_access.Access.{same_state, can, valid_transition, load_event}
use nats_guest_access.Access.Events
use nats_guest_access.Access.Results.Presenter.{set_state-target}

-- The states between which SetState moves an event.
abbrev pub MayMove : EventState → EventState → Type 0
MayMove before target = (before ≡ target) ⊎ (valid_transition before target ≡ true)

same : (a b : EventState) → same_state a b ≡ true → a ≡ b
unfolding same_state
same (other_state x) (other_state y) h = ap other_state ((eq_iff x y).0 h)
same a b h = ground arith

may_move :
    (before target : EventState)
    → not (same_state before target) && not (valid_transition before target) ≡ false
    → MayMove before target
may_move before target h = elim (Bool-cases (valid_transition before target)) [
  | inl moves ↦ inr moves
  | inr stays ↦ inl (same before target (ground arith))
]

double_negation : (b : Bool) → not b ≡ false → b ≡ true
double_negation b h = ground arith

module _ (p : Platform) where
  -- If SetState ends with an event, whatever others do, that event is in the state that was
  -- asked for, and the event that SetState read first gave the caller the capability to operate
  -- it and was in that state or in one from which there is a transition to it.
  pub set_state-guarded :
      (principal event_id : String) (target : EventState) (w : World p.Bytes) (before : Event)
      (revision : ℕ) (event : Event)
      → (load_event p event_id w).0 ≡ ok (before, revision)
      → (Events.set_state p principal event_id target w).0 ≡ ok event
      → (event.state ≡ target) × (can before principal operate ≡ true) × MayMove before.state target
  unfolding Events.set_state Events.set_state_attempts
  set_state-guarded principal event_id target w before revision event q h =
      let guards =
        Gives.at {P = λ e. (can before principal operate ≡ true) × MayMove before.state target}
          (Gives-if (not (can before principal operate)) (λ _. Gives-fail _)
            λ allowed.
              Gives-if
                (not (same_state before.state target) && not (valid_transition before.state target))
                (λ _. Gives-fail _)
                λ moves. record {
                  at = λ w b h. (double_negation _ allowed, may_move before.state target moves);
                })
          (load_event p event_id w).1 event
          (ap (λ x. x.0) (sym (bind_ok (load_event p event_id) _ w (before, revision) q)) ∙ h) in
      (set_state-target p principal event_id target w event h, guards.0, guards.1)
