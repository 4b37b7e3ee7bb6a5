-- ===== src/Scenarios/Stores.antt =====
-- Two events of one chain through `StoreEvent` of pkg/localloop.
use intentproof_tools.Prelude.{
  List, ◌≡◌, refl, inl, inr, String, [], ◌∷◌, false, true, In, err, trim_space, to_lower, arith,
}
use intentproof_tools.Prelude.Int
use intentproof_tools.Prelude.Int.{ℤ, pos}
use intentproof_tools.Prelude.Bytes.{hex_encode}
use intentproof_tools.Value
use intentproof_tools.Value.{null, end}
use intentproof_tools.Localloop.Types.{ExecutionEvent, Row}
use intentproof_tools.Localloop.Store
use intentproof_tools.Localloop.Store.{store_event, sentinel, occupied, chain_gap, slot}
use intentproof_tools.Localloop.Store.Chain.{At, WellFormed}
use intentproof_tools.Localloop.Store.Reachable.{
  Reachable, empty, stored, Reachable-WellFormed, chain_complete, store_event_id_taken,
}

abbrev pub event : String → ℤ → String → ExecutionEvent
event id position prev = record {
  schema = "intentproof.event.v1";
  event_id = id;
  tenant_id = "acme";
  instance_id = "i1";
  correlation_id = "c1";
  prev_event_hash = prev;
  chain_position = position;
  intent = "";
  action = "refund";
  status = "ok";
  started_at = pos 0;
  completed_at = pos 0;
  duration_ms = pos 0;
  inputs = null;
  output = null;
  error = null;
  attributes = end;
  spec_version = "1.0.0";
  sdk_version = "1.0.0";
  signature = record { alg = "ed25519"; key_id = "k1"; value = "s" };
}

abbrev pub first : Row
first = record { event = event "e1" (pos 1) sentinel; event_hash = 1 ∷ 255 ∷ [] }

abbrev pub second : Row
second = record { event = event "e2" (pos 2) " SHA256:01FF"; event_hash = 2 ∷ [] }

abbrev opened : Unit {0}
unfolding store_event Store.check_chain Store.check_link Store.check_previous Store.check_occupants
    Store.insert_row Store.in_slot Store.same_key Store.normalize_prev_event_hash
    Store.format_chain_hash trim_space to_lower hex_encode Value.eq_ℤ Int.◌-ℤ◌
opened = tt

another_in_the_slot :
    store_event (first ∷ second ∷ []) (event "e3" (pos 2) "sha256:01ff") (3 ∷ []) ≡ err occupied
unfolding opened
another_in_the_slot = refl

behind_a_gap : store_event (first ∷ []) (event "e3" (pos 3) "sha256:01ff") (3 ∷ []) ≡ err chain_gap
unfolding opened
behind_a_gap = refl

abbrev pub both : Reachable (first ∷ second ∷ [])
unfolding opened
both =
    stored {rows = first ∷ []} second.event second.event_hash true
      (stored {rows = []} first.event first.event_hash true empty refl) refl

Reachable-WellFormed_example : WellFormed (first ∷ second ∷ [])
Reachable-WellFormed_example = Reachable-WellFormed both

chain_complete_example : (p : Row) × In p (first ∷ second ∷ []) × At second.event (pos 1) p
chain_complete_example = chain_complete both 1 0 second (inr (inl refl)) refl (omega arith)

abbrev both_rows : List Row
both_rows = first ∷ second ∷ []

-- An event of another chain that has the id of the first one.
abbrev same_id : ExecutionEvent
same_id = record (event "e1" (pos 1) sentinel) { correlation_id = "c2" }

store_event_id_taken_example : (both_rows ≡ both_rows) × (false ≡ false)
unfolding opened
store_event_id_taken_example =
    store_event_id_taken both_rows both_rows same_id [] false first (inl refl) refl refl refl
