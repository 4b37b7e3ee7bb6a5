-- ===== src/Scenarios/Requests.antt =====
-- Requests to the ingest server of pkg/localloop, and the flow that its store gives.
use intentproof_tools.Prelude.{
  ◌≡◌, refl, [], ◌∷◌, true, none, some, trim_space, to_lower, has_prefix,
}
use intentproof_tools.Prelude.Int
use intentproof_tools.Prelude.Int.{ℤ, pos}
use intentproof_tools.Prelude.Bytes
use intentproof_tools.Value
use intentproof_tools.Localloop.Types.{ExecutionEvent}
use intentproof_tools.Localloop.Store
use intentproof_tools.Localloop.Store.{store_event}
use intentproof_tools.Localloop.Ingest
use intentproof_tools.Localloop.Ingest.{
  Services, handle_v1_events, accepted, conflict, bad_request, validate_event,
}
use intentproof_tools.Localloop.Ingest.Requests.{AcceptedRequest, handle_v1_events-accepted}
use intentproof_tools.Scenarios.Stores.{event, first}

-- One event is decoded from every body; every signature verifies.
abbrev services_for : ExecutionEvent → Services
services_for ev = record {
  decode = λ body. some ev;
  canonicalize = λ e. some (1 ∷ 255 ∷ []);
  sha256 = λ b. b;
  verify_signature = λ e h. none;
  nats = some (λ e. true);
}

abbrev opened : Unit {0}
unfolding handle_v1_events Ingest.respond Ingest.receive Ingest.authenticate Ingest.store_signed
    Ingest.committed Ingest.as_bad_request Ingest.signed Ingest.published Ingest.store_status
    validate_event Ingest.missing_identity_fields Ingest.bad_envelope Ingest.is_hex has_prefix
    Bytes.bytes store_event Store.check_chain Store.check_link Store.check_previous
    Store.check_occupants Store.insert_row Store.in_slot Store.same_key
    Store.normalize_prev_event_hash Store.format_chain_hash trim_space to_lower Value.eq_ℤ Int.◌-ℤ◌
opened = tt

bad_position_is_refused :
    handle_v1_events (services_for (event "e1" (pos 0) Store.sentinel)) [] true (some "{}")
    ≡ ([], bad_request)
unfolding opened
bad_position_is_refused = refl

a_gap_is_a_conflict :
    handle_v1_events (services_for (event "e3" (pos 3) Store.sentinel)) [] true (some "{}")
    ≡ ([], conflict)
unfolding opened
a_gap_is_a_conflict = refl

-- Without NATS an event is accepted all the same.
accepted_without_nats :
    handle_v1_events (record (services_for first.event) { nats = none }) [] true (some "{}")
    ≡ (first ∷ [], accepted)
unfolding opened
accepted_without_nats = refl

handle_v1_events-accepted_example :
    AcceptedRequest (services_for first.event) [] (first ∷ []) true (some "{}")
unfolding opened
handle_v1_events-accepted_example =
    handle_v1_events-accepted (services_for first.event) [] true (some "{}") refl
