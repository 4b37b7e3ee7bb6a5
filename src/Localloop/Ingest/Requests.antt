-- ===== src/Localloop/Ingest/Requests.antt =====
-- What `handleV1Events` (pkg/localloop/ingest.go) does to the store, and when it accepts.
use intentproof_tools.Prelude.{
  ◌≡◌, ◌≢◌, refl, sym, ap, subst, ◌∙◌, String, List, Bool, true, false, Option, none, some, Result,
  err, ok, bind-ok, then-ok, guard, guard-ok, or_err, or_err-ok, ok-injective, arith,
}
use intentproof_tools.Merkle.{Bytes}
use intentproof_tools.Localloop.Types.{ExecutionEvent, Row}
use intentproof_tools.Localloop.Store.{StoreError, store_event}
use intentproof_tools.Localloop.Store.Reachable.{Reachable, stored}
use intentproof_tools.Localloop.Ingest.{
  Status, EventError, SignatureError, accepted, bad_request, internal_error, method_not_allowed,
  Services, validate_event, as_bad_request, signed, committed, receive, authenticate, store_signed,
  respond, handle_v1_events, store_status, signature_status, published,
}

committed-Reachable :
    (rows : List Row) (ev : ExecutionEvent) (hash : Bytes) (sent : Bool)
    (result : Result StoreError (List Row × Bool))
    → store_event rows ev hash ≡ result
    → Reachable rows
    → Reachable (committed rows sent result).0
unfolding committed
committed-Reachable rows ev hash sent (err e) h r = r
committed-Reachable rows ev hash sent (ok (rows', b)) h r = stored ev hash b r h

module _ (services : Services) where
  store_signed-Reachable :
      (rows : List Row) (ev : ExecutionEvent) (result : Result Status Bytes)
      → Reachable rows
      → Reachable (store_signed services rows ev result).0
  unfolding store_signed
  store_signed-Reachable rows ev (err status) r = r
  store_signed-Reachable rows ev (ok hash) r =
      committed-Reachable rows ev hash (published services.nats ev) (store_event rows ev hash) refl
        r

  respond-Reachable :
      (rows : List Row) (result : Result Status ExecutionEvent)
      → Reachable rows
      → Reachable (respond services rows result).0
  unfolding respond
  respond-Reachable rows (err status) r = r
  respond-Reachable rows (ok ev) r = store_signed-Reachable rows ev (authenticate services ev) r

  -- Whatever the request, the decoder, the signatures and the publisher: a store that is made of the
  -- empty one by `StoreEvent` is so again behind the request.
  pub handle_v1_events-Reachable :
      (rows : List Row) (is_post : Bool) (body : Option String)
      → Reachable rows
      → Reachable (handle_v1_events services rows is_post body).0
  unfolding handle_v1_events
  handle_v1_events-Reachable rows is_post body r =
      respond-Reachable rows (receive services is_post body) r

  -- Either the server has no NATS, or it takes the message.
  abbrev pub Announced : Option (ExecutionEvent → Bool) → ExecutionEvent → Type 0
  Announced none ev = Unit
  Announced (some publish) ev = publish ev ≡ true

  published-Announced :
      (nats : Option (ExecutionEvent → Bool)) (ev : ExecutionEvent)
      → published nats ev ≡ true
      → Announced nats ev
  unfolding published
  published-Announced none ev h = tt
  published-Announced (some publish) ev h = h

  -- The rows of a response, and the request and the event that they are accepted for.
  pub record AcceptedRequest (rows rows' : List Row) (is_post : Bool) (body : Option String)
      : Type 0 where
    pub text : String
    pub event : ExecutionEvent
    pub canon : Bytes
    pub inserted : Bool
    pub posted : is_post ≡ true
    pub read : body ≡ some text
    pub decoded : services.decode text ≡ some event
    pub valid : validate_event event ≡ ok tt
    pub canonical : services.canonicalize event ≡ some canon
    pub verified : services.verify_signature event (services.sha256 canon) ≡ none
    pub written : store_event rows event (services.sha256 canon) ≡ ok (rows', inserted)
    pub announced : Announced services.nats event

  receive-err :
      (is_post : Bool) (body : Option String) → receive services is_post body ≢ err accepted
  unfolding receive
  receive-err is_post body h = ground arith

  authenticate-err : (ev : ExecutionEvent) → authenticate services ev ≢ err accepted
  unfolding authenticate as_bad_request signed signature_status
  authenticate-err ev h = ground arith

  store_status-err : (e : StoreError) → store_status e ≢ accepted
  unfolding store_status
  store_status-err e h = ground arith

  committed-accepted :
      (rows : List Row) (sent : Bool) (result : Result StoreError (List Row × Bool))
      → (committed rows sent result).1 ≡ accepted
      → (b : Bool) × (result ≡ ok ((committed rows sent result).0, b)) × (sent ≡ true)
  unfolding committed
  committed-accepted rows sent (err e) h = absurd (store_status-err e h)
  committed-accepted rows true (ok (rows', b)) h = (b, refl, refl)
  committed-accepted rows false (ok (rows', b)) h = cc

  as_bad_request-ok : (r : Result EventError (Unit {0})) → as_bad_request r ≡ ok tt → r ≡ ok tt
  unfolding as_bad_request
  as_bad_request-ok (err e) h = cc
  as_bad_request-ok (ok u) h = refl

  signed-ok : (o : Option SignatureError) → signed o ≡ ok tt → o ≡ none
  unfolding signed
  signed-ok none h = refl
  signed-ok (some e) h = cc

  stored-accepted :
      (rows : List Row) (ev : ExecutionEvent) (result : Result Status Bytes)
      → authenticate services ev ≡ result
      → (store_signed services rows ev result).1 ≡ accepted
      → (hash : Bytes) × (b : Bool) × (authenticate services ev ≡ ok hash)
        × (store_event rows ev hash ≡ ok ((store_signed services rows ev result).0, b))
        × (published services.nats ev ≡ true)
  unfolding store_signed
  stored-accepted rows ev (err s) e h = absurd (authenticate-err ev (e ∙ ap err h))
  stored-accepted rows ev (ok hash) e h =
      let (b, w, p) =
        committed-accepted rows (published services.nats ev) (store_event rows ev hash) h in
      (hash, b, e, w, p)

  respond-accepted :
      (rows : List Row) (is_post : Bool) (body : Option String)
      (result : Result Status ExecutionEvent)
      → receive services is_post body ≡ result
      → (respond services rows result).1 ≡ accepted
      → AcceptedRequest rows (respond services rows result).0 is_post body
  unfolding respond receive authenticate
  respond-accepted rows is_post body (err s) e h = absurd (receive-err is_post body (e ∙ ap err h))
  respond-accepted rows is_post body (ok ev) e h =
      let (hash, b, a, w, p) = stored-accepted rows ev (authenticate services ev) refl h in
      let (g, e₁) = then-ok (guard is_post method_not_allowed) _ ev e in
      let (text, t, e₂) = bind-ok (or_err body bad_request) _ ev e₁ in
      let (v, a₁) = then-ok (as_bad_request (validate_event ev)) _ hash a in
      let (canon, c, a₂) = bind-ok (or_err (services.canonicalize ev) internal_error) _ hash a₁ in
      let (s, a₃) =
        then-ok (signed (services.verify_signature ev (services.sha256 canon))) _ hash a₂ in
      record {
        text = text;
        event = ev;
        canon = canon;
        inserted = b;
        posted = guard-ok is_post method_not_allowed g;
        read = or_err-ok body bad_request text t;
        decoded = or_err-ok (services.decode text) bad_request ev e₂;
        valid = as_bad_request-ok _ v;
        canonical = or_err-ok _ internal_error canon c;
        verified = signed-ok _ s;
        written =
            subst (λ x. store_event rows ev x ≡ ok ((respond services rows (ok ev)).0, b))
              (sym (ok-injective a₃)) w;
        announced = published-Announced services.nats ev p;
      }

  -- A request is answered with 202 only if it posts an event that decodes and is valid, whose signature
  -- verifies over the hash of its canonical form, for which StoreEvent does not fail, though it inserts
  -- nothing where it has the id already, and whose message is published if the server has NATS.
  pub handle_v1_events-accepted :
      (rows : List Row) (is_post : Bool) (body : Option String)
      → (handle_v1_events services rows is_post body).1 ≡ accepted
      → AcceptedRequest rows (handle_v1_events services rows is_post body).0 is_post body
  unfolding handle_v1_events
  handle_v1_events-accepted rows is_post body h =
      respond-accepted rows is_post body (receive services is_post body) refl h
