-- ===== src/Access/Terminal/Requests.antt =====
-- Any requests of internal/access/service.go, on a store with a started deletion.
use nats_guest_access.Prelude.{ℕ, ◌<◌, String, ◌≡◌, ◌≢◌, List, [], ◌∷◌}
use nats_guest_access.Errors.{Result, ok, err}
use nats_guest_access.Platform.{Platform, IsLawful}
use nats_guest_access.Store.{revision_limit}
use nats_guest_access.World
use nats_guest_access.World.{World, Action, ◌>>=◌, ◌>>◌}
use nats_guest_access.World.Logic.{Fact, nothing, IsSound, Sound, Post, Keeps}
use nats_guest_access.World.Rules.{
  plain, Keeps-bind, Keeps-bind_result, Keeps-try, Keeps-check, Keeps-done, Keeps-handle,
  Keeps-error,
}
use nats_guest_access.World.Primitives.{
  Keeps-create, Keeps-delete, Keeps-list, Keeps-now, Keeps-new_uuid, Keeps-random_secret,
}
use nats_guest_access.Access.{Service, event_key, invitation_key, digest}
use nats_guest_access.Access.Keys.{not_event_invitation}
use nats_guest_access.Access.Events
use nats_guest_access.Access.Events.{CreateEventInput}
use nats_guest_access.Access.Requests.{Request, serve, serve_all}
use nats_guest_access.Access.Terminal.{Terminal, other_kind, removal_any, new_event}
use nats_guest_access.Access.Terminal.Presenter.{
  Keeps-set_state, Keeps-set_cohost, Keeps-update_capacity, Keeps-rotate_invitation,
}
use nats_guest_access.Access.Terminal.Cleanup.{Keeps-get_event, Keeps-release_slot}
use nats_guest_access.Access.Terminal.Deletion.{Keeps-delete_event, Keeps-get_receipt}
use nats_guest_access.Access.Terminal.Recovery.{
  Keeps-list_slots, Keeps-list_receipts, Keeps-reconcile,
}
use nats_guest_access.Access.Terminal.Guest.{
  Keeps-start_session, Keeps-renew_session, Keeps-heartbeat_session,
}

module _ (p : Platform) (laws : IsLawful p) (s : Service) (id : String)
    (other : (n : ℕ) → id ≢ p.uuid n) where
  drawn : (w : World p.Bytes) (u : String) → (World.new_uuid p w).0 ≡ ok u → id ≢ u
  unfolding World.new_uuid
  drawn w u h q = other w.uuids (cc)

  Keeps-create_event :
      (F : Fact p.Bytes) (owner : String) (given : CreateEventInput)
      → Keeps (Terminal p id) F (Events.create_event p s owner given) plain
  unfolding Events.create_event
  Keeps-create_event F owner given = Keeps-check _ λ capacity q.
      Keeps-bind (Keeps-random_secret p) λ secret. Keeps-bind Keeps-now λ time.
        Keeps-bind_result (λ u. id ≢ u) drawn (Keeps-new_uuid p)
          λ u ne. Keeps-bind (Keeps-create (event_key u) _ (new_event p id u _ ne)) λ r.
            Keeps-bind
              (Keeps-try (
                Keeps-create (invitation_key (digest p s secret)) _
                  (other_kind p id _ (not_event_invitation _))))
              λ indexed.
                Keeps-handle indexed (λ r' e. Keeps-done _)
                  (λ x e.
                    Keeps-bind (Keeps-try (Keeps-delete (event_key u) (removal_any p id _)))
                      λ z. Keeps-error x)

  Keeps-list_events :
      (F : Fact p.Bytes) (principal : String)
      → Keeps (Terminal p id) F (Events.list_events p principal) plain
  unfolding Events.list_events
  Keeps-list_events F principal = Keeps-bind (Keeps-list "event.") λ entries. Keeps-done _

  dropped :
      {A : Type 0} (F : Fact p.Bytes) {m : Action p.Bytes A}
      → Keeps (Terminal p id) F m plain
      → Keeps (Terminal p id) F (m >> World.pure tt) plain
  dropped F km = Keeps-bind km λ a. Keeps-done tt

  Keeps-serve : (F : Fact p.Bytes) (r : Request) → Keeps (Terminal p id) F (serve p s r) plain
  unfolding serve
  Keeps-serve F (Request.create_event owner input) = dropped F (Keeps-create_event F owner input)
  Keeps-serve F (Request.list_events principal) = dropped F (Keeps-list_events F principal)
  Keeps-serve F (Request.get_event principal e) = dropped F (Keeps-get_event p id F principal e)
  Keeps-serve F (Request.set_state principal e target) =
      dropped F (Keeps-set_state p laws id F principal e target)
  Keeps-serve F (Request.update_capacity principal e capacity) =
      dropped F (Keeps-update_capacity p laws id s F principal e capacity)
  Keeps-serve F (Request.set_cohost principal e cohost capabilities) =
      dropped F (Keeps-set_cohost p laws id F principal e cohost capabilities)
  Keeps-serve F (Request.rotate_invitation principal e) =
      dropped F (Keeps-rotate_invitation p laws id s F principal e)
  Keeps-serve F (Request.release_slot principal e number) =
      dropped F (Keeps-release_slot p id s F principal e number)
  Keeps-serve F (Request.delete_event principal e) =
      dropped F (Keeps-delete_event p laws id s F principal e)
  Keeps-serve F (Request.get_receipt principal e) =
      dropped F (Keeps-get_receipt p laws id F principal e)
  Keeps-serve F (Request.start_session invitation) =
      dropped F (Keeps-start_session p s id F invitation)
  Keeps-serve F (Request.renew_session secret) = dropped F (Keeps-renew_session p s id F secret)
  Keeps-serve F (Request.heartbeat_session secret) =
      dropped F (Keeps-heartbeat_session p s id F secret)
  Keeps-serve F (Request.list_slots principal e) = dropped F (Keeps-list_slots p id F principal e)
  Keeps-serve F (Request.list_receipts principal) = dropped F (Keeps-list_receipts p id F principal)
  Keeps-serve F (Request.reconcile batch over) =
      dropped F (Keeps-reconcile p laws id s F batch over)

  Sound-after :
      (r : Result (Unit {0})) (w : World p.Bytes)
      → Post (Terminal p id) nothing plain r w
      → Sound (Terminal p id) nothing.holds w
  Sound-after (ok u) w h left =
      let g = h left in
      record { counted = g.counted; fresh = g.fresh; inv = g.inv; fact = tt; calm = g.calm }
  Sound-after (err e) w h left = h left

  Sound-serve_all :
      (rs : List Request) (w : World p.Bytes)
      → Sound (Terminal p id) nothing.holds w
      → Sound (Terminal p id) nothing.holds (serve_all p s rs w)
  unfolding serve_all
  Sound-serve_all [] w h = h
  Sound-serve_all (r ∷ rs) w h =
      Sound-serve_all rs (serve p s r w).1
        (Sound-after (serve p s r w).0 (serve p s r w).1 ((Keeps-serve nothing r).at w h))

  -- If the entry of the event `id` is missing, does not decode, or decodes to an event that is
  -- being deleted, one of these holds again after any list of requests on the service and of
  -- recovery passes, whatever their results, arguments and principals, whichever store calls
  -- fail or lose their reply, and whatever others do in between that keeps this too. It is
  -- assumed that stored JSON decodes to what was encoded, that no uuid drawn during the run is
  -- `id`, that the entries' revisions are those that the store gave out, and that fewer calls
  -- than revisions were made.
  pub deletion_is_final :
      (rs : List Request) (w : World p.Bytes)
      → IsSound (Terminal p id) nothing.holds w
      → (serve_all p s rs w).calls < revision_limit
      → Terminal p id (serve_all p s rs w).memory (serve_all p s rs w).acknowledged
  deletion_is_final rs w h left = (Sound-serve_all rs w (λ _. h) left).inv
