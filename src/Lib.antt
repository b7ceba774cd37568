-- ===== src/Lib.antt =====
-- A verification library for nats-guest-access: presenters make events, guests take places in
-- them by an invitation, and the identities of guests are erased before their places are used
-- again or their event goes. All state is in a key-value store with revisions, which several
-- replicas of the service share.
--
-- The files, with the code that they model:
--   Prelude    numbers, texts and lists as the code uses them; no code of the repository
--   Errors     the error values of internal/access and internal/store, with errors.Is
--   Model      internal/model/model.go
--   Platform   what is a parameter: encoding/json, HMAC, uuids, random bytes and signatures,
--              with the law that JSON decodes to what was encoded
--   Store      internal/store/store.go and internal/store/memory.go: each method of Memory is a
--              function from the state to its result and the new state (Get is get, and so on)
--   World      what one request runs in. An Action is a handler: it takes a World and returns a
--              result or an error, and the new World. World/Logic, World/Rules and
--              World/Primitives are a program logic on actions, with World/Answers for the
--              cleaner; World/Results and World/Endings are two smaller ones.
--   Access     internal/access/service.go and internal/access/recovery.go. The methods of
--              Service have their Go names in snake case: Access/Events has CreateEvent
--              (create_event), SetState, UpdateCapacity, SetCohost, RotateInvitation and the
--              readers, Access/Sessions StartSession (start_session, with its loop as seat),
--              RenewSession and HeartbeatSession, Access/Cleanup claimCleanup, retryDelay and
--              cleanSlot, Access/Deletion DeleteEvent, cleanEvent, finalizeEvent, GetReceipt and
--              ReleaseSlot. Issuer.Mint (internal/issuer/issuer.go) is within mint.
--              Access/Terminal, Access/Results, Access/Purge, Access/Authority, Access/Timing
--              and Access/Reserve hold proofs about them, Access/Requests runs of requests.
--              Access/Readers has ListSlots and ListReceipts, Access/Recovery has Reconcile with
--              its task order (find_tasks, then run_tasks on the sorted tasks).
--   Api        internal/api/api.go and internal/api/presenter.go: serve_http is the handler that
--              New returns, Api/Routing its routes, Api/Guests and Api/Events the handlers,
--              Api/Replies what they write, Api/Presenters the verification of callers. A handler
--              takes a request and a World and gives a reply and the new World. Its other
--              children hold proofs.
--   Config     internal/config/config.go: Load (load), with its checks as is_refused
--   CleanupClient   internal/cleanup/nats.go: Cleanup (cleanup), the Cleaner of the program
--   Recovery   internal/recovery/controller.go: Tick (tick), Run (run) and the metrics
--   Issuer     internal/issuer/issuer.go: Load, New, Discovery and JWKS
--   Store/Nats internal/store/nats.go, with JetStream's key-value client as the record Bucket
--   Samples, Tests   a concrete platform, and runs of the definitions on it
--
-- How a request meets the others: before each of its store calls, other replicas may have made
-- any calls, as a function of all that the store holds (Turn.others), and each of its store calls
-- may fail before or after it took effect (Turn.fault). When the turns of a world have run out,
-- nobody else acts. The cleaner's answers, the clock's advances and the uuids are scripts too.
--
-- Bounds. Revisions are uint64, and the counter's wrap is written out; what needs it is shown
-- for runs with fewer than 2^64 writing calls (World.calls counts them). A loop of at most five
-- attempts recurses on the attempts that are left, the loop of StartSession on the places that
-- are left. reserveSlots calls itself again after a revision conflict without a bound: the
-- model's fuel is one more than the turns left, since without a turn nobody else can cause a
-- conflict, and running out is a failure of its own (Access/Reserve). Counters and capacities are
-- natural numbers without an upper bound, and a capacity in a request may be negative.
--
-- Times and durations are nanoseconds since time.Time{}, and the clock does not go back. The
-- order in which Go walks a map is the order of the store's table, and sort.Slice is an
-- insertion sort. Durations of the service are not negative. The one sum of two of them that can
-- reach a stored time, in new_slot, wraps as int64 does (Sessions.after), where the clock is past
-- the year 293, so that going back by less than 2^63 nanoseconds stays after time.Time{};
-- configure_cleanup_lease gives nothing where its sum would wrap. The texts that errors carry are
-- left out, as are the nil checks of maps.
--
-- How the parts meet: Load's configuration sets up the service, the API and the controller; the API
-- calls the service for every request, and the controller calls Reconcile. The service is
-- modelled on the store in memory, which both stores' interface has in common, and the cleaner as
-- a script of answers; the clients of NATS are modelled on their own, with the connection, the
-- bucket, JSON, the identity provider and the cryptography as parameters.
--
-- Not modelled: main, which is wiring, signals and I/O, the log, the lock and the ticker of the
-- controller (ticks come one after the other), and the paths that http.ServeMux cleans or
-- unescapes before it matches them.
pub mod Access
pub mod Api
pub mod CleanupClient
pub mod Config
pub mod Errors
pub mod Issuer
pub mod Model
pub mod Platform
pub mod Prelude
pub mod Recovery
pub mod Samples
pub mod Store
pub mod Tests
pub mod World
