-- ===== src/CleanupClient/Acknowledged.antt =====
-- When the client of internal/cleanup/nats.go reports that guests were erased.
use nats_guest_access.Prelude.{
  ℕ, String, ◌++◌, ◌≡◌, ◌∙◌, sym, ap, refl, true, Bool-cases, inl, inr, Option, none, some, ℤ, pos,
  negsuc, str_eq, eq_iff, length, arith, ◌↔◌, ◌==◌,
}
use nats_guest_access.Errors.{ok, err, failure, no_reply, decoding}
use nats_guest_access.World.{CleanupRequest}
use nats_guest_access.CleanupClient.{
  Request, Response, Connection, Client, same_number, exactly, checked_response, request_of,
  cleanup,
}

-- A response that acknowledges every guest of a request.
pub record Acknowledges (request : Request) (response : Response) : Type 0 where
  pub version : response.schema_version ≡ pos 1
  pub deletion : response.deletion_id ≡ request.deletion_id
  pub application : response.application_id ≡ request.application_id
  pub complete : response.status ≡ "complete"
  pub all : response.identities_processed ≡ pos (length request.guest_subjects)

same_number-eq : (a b : ℤ) → same_number a b ≡ true → a ≡ b
unfolding same_number
same_number-eq a b h = ground arith

same_text : (a b : String) → a ≡ b → str_eq a b ≡ true
same_text a b h = (eq_iff a b).1 h

found : {m n expected : ℕ} → m ≡ expected → ok m ≡ ok n → (pos m ≡ pos expected) × (n ≡ expected)
found {m} {n} {expected} e h = (cc, cc)

exactly-ok :
    (expected n : ℕ) (z : ℤ) → exactly expected z ≡ ok n → (z ≡ pos expected) × (n ≡ expected)
exactly-ok expected n (pos m) h = elim (Bool-cases (m == expected)) [
  | inl same ↦ found (ground arith) (rw same at h)
  | inr other ↦ absurd (ground arith)
]
exactly-ok expected n (negsuc m) h = absurd (cc)

passed :
    (request : Request) (response : Response) (n : ℕ)
    → checked_response request response ≡ ok n
    → (same_number response.schema_version (pos 1) ≡ true)
      × (str_eq response.deletion_id request.deletion_id ≡ true)
      × (str_eq response.application_id request.application_id ≡ true)
      × (str_eq response.status "complete" ≡ true)
      × (exactly (length request.guest_subjects) response.identities_processed ≡ ok n)
unfolding checked_response
passed request response n h = (ground arith, ground arith, ground arith, ground arith, ground arith)

checked-Acknowledges :
    (request : Request) (response : Response) (n : ℕ)
    → checked_response request response ≡ ok n
    → Acknowledges request response × (n ≡ length request.guest_subjects)
unfolding checked_response
checked-Acknowledges request response n h =
    let (version, deletion, application, complete, all) = passed request response n h in
    let (count, same) =
      exactly-ok (length request.guest_subjects) n response.identities_processed all in
    (
      record {
        version = same_number-eq response.schema_version (pos 1) version;
        deletion = (eq_iff response.deletion_id request.deletion_id).0 deletion;
        application = (eq_iff response.application_id request.application_id).0 application;
        complete = (eq_iff response.status "complete").0 complete;
        all = count;
      },
      same,
    )

Acknowledges-checked :
    (request : Request) (response : Response)
    → Acknowledges request response
    → checked_response request response ≡ ok (length request.guest_subjects)
unfolding checked_response same_number
Acknowledges-checked request response h =
    simp
      (
        h.version,
        same_text response.deletion_id request.deletion_id h.deletion,
        same_text response.application_id request.application_id h.application,
        same_text response.status "complete" h.complete,
        h.all,
      )
      (ground arith)

module _ (c : Connection) (client : Client) where
  -- The response that the application sends to a request.
  pub record Answered (r : CleanupRequest) : Type 0 where
    pub payload : c.Payload
    pub response : Response
    pub sent :
        c.request (client.subject ++ "." ++ r.application_id) (c.encode_request (request_of c r))
        ≡ some payload
    pub read : c.decode_response payload ≡ some response
    pub acknowledges : Acknowledges (request_of c r) response

  -- The cleanup client reports `n` erased guests exactly if the application's reply to the
  -- request can be read, has the schema version 1, the request's deletion ID and application,
  -- the status complete and as many processed identities as the request has guests, and `n` is
  -- that number.
  pub cleanup-acknowledged :
      (r : CleanupRequest) (n : ℕ)
      → (cleanup c client r ≡ ok n) ↔ (Answered r × (n ≡ length r.subjects))
  unfolding cleanup
  cleanup-acknowledged r n = (there, back)
    where
      send : Option c.Payload
      send =
          c.request (client.subject ++ "." ++ r.application_id) (c.encode_request (request_of c r))

      there : cleanup c client r ≡ ok n → Answered r × (n ≡ length r.subjects)
      there h = go send refl h
        where
          read :
              (payload : c.Payload) (o : Option Response)
              → send ≡ some payload
              → c.decode_response payload ≡ o
              → elim o [
                | none ↦ err (failure decoding)
                | some response ↦ checked_response (request_of c r) response
              ]
                ≡ ok n
              → Answered r × (n ≡ length r.subjects)
          read payload none q q' k = absurd (cc)
          read payload (some response) q q' k =
              let (acknowledges, same) = checked-Acknowledges (request_of c r) response n k in
              (
                record {
                  payload = payload;
                  response = response;
                  sent = q;
                  read = q';
                  acknowledges = acknowledges;
                },
                same,
              )

          go :
              (o : Option c.Payload)
              → send ≡ o
              → elim o [
                | none ↦ err (failure no_reply)
                | some payload ↦ elim (c.decode_response payload) [
                  | none ↦ err (failure decoding)
                  | some response ↦ checked_response (request_of c r) response
                ]
              ]
                ≡ ok n
              → Answered r × (n ≡ length r.subjects)
          go none q k = absurd (cc)
          go (some payload) q k = read payload (c.decode_response payload) q refl k

      back : Answered r × (n ≡ length r.subjects) → cleanup c client r ≡ ok n
      back (a, same) =
          rw (a.sent, cleanup)
            (rw (a.read)
              (Acknowledges-checked (request_of c r) a.response a.acknowledges ∙ ap ok (sym same)))
