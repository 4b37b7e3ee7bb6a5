-- ===== src/Localloop/Flow.antt =====
-- Flows: `reduceFlowMode` (pkg/localloop/store_flow_mode.go), `FlowBoundsAndMode` (store_flows.go),
-- `LoadFlowEvents` (store_events.go) and the flow that `handle` (flowbuilder.go) makes of a commit.
pub mod Modes
pub mod Window
pub mod Tables
use Prim.Native.String.{◌++◌ as concat}
use intentproof_tools.Prelude.{
  ℕ, suc, String, List, [], ◌∷◌, map, Bool, ◌&&◌, ◌||◌, Option, none, some, ltb, ◌==◌, Eq-String,
  if◌then◌else◌, keep, is_empty, not, Result, ok, ◌>>=◌, ◌>>◌, guard,
}
use intentproof_tools.Prelude.Int.{ℤ, ltb_ℤ}
use intentproof_tools.Prelude.Bytes.{hex_encode}
use intentproof_tools.Prelude.Sorting.{sort, str_lt}
use intentproof_tools.Merkle.{Bytes, root}
use intentproof_tools.Value.{Fields, as_fields, as_string, get, or_empty, eq_ℤ}
use intentproof_tools.Verifier.Time.{Time, zero_time, before, after}
use intentproof_tools.Localloop.Types.{ExecutionEvent, Row}

unfoldable pub mode_rank : String → ℕ
mode_rank mode =
    if mode == "minimal"
    then 0
    else if mode == "operational"
    then 1
    else if mode == "full"
    then 2
    else 1

-- The loop over `modes[1:]`, from the least mode so far.
unfoldable pub min_mode : String → List String → String
min_mode least [] = least
min_mode least (m ∷ modes) =
    let keep_least = min_mode least modes in
    let take_this = min_mode m modes in
    if ltb (mode_rank m) (mode_rank least) then take_this else keep_least

-- The switch at the end.
unfoldable pub known_or_default : String → String
known_or_default mode =
    if mode == "minimal" || mode == "operational" || mode == "full" then mode else "operational"

unfoldable pub reduce_flow_mode : List String → String
reduce_flow_mode [] = "operational"
reduce_flow_mode (m ∷ modes) = known_or_default (min_mode m modes)

-- `ORDER BY chain_position ASC, event_id ASC`
unfoldable pub row_lt : Row → Row → Bool
row_lt r s =
    ltb_ℤ r.event.chain_position s.event.chain_position
    || (eq_ℤ r.event.chain_position s.event.chain_position
        && str_lt r.event.event_id s.event.event_id)

-- The rows of a correlation, as the three queries over them give them.
unfoldable pub flow_rows : List Row → String → String → List Row
flow_rows rows tenant correlation =
    sort row_lt (
      keep (λ (r : Row). r.event.tenant_id == tenant && r.event.correlation_id == correlation) rows)

-- `COALESCE(json_extract(body, '$.attributes.intentproof.mode'), '')`, for a mode that is a text; an
-- event without one is operational.
unfoldable pub mode_of : Row → String
mode_of r = elim (as_fields (get "intentproof" r.event.attributes)) [
  | none ↦ "operational"
  | some m ↦
      let mode = or_empty (as_string (get "mode" m)) in if mode == "" then "operational" else mode
]

pub record Bounds : Type 0 where
  pub started : Time
  pub closed : Time

-- The loop of `FlowBoundsAndMode` behind its first row. A time is stored as RFC 3339 text with
-- nanoseconds, which reads back as itself.
unfoldable pub widen : Bounds → List Row → Bounds
widen b [] = b
widen b (r ∷ rows) =
    widen
      (record {
        started = if before r.event.started_at b.started then r.event.started_at else b.started;
        closed = if after r.event.completed_at b.closed then r.event.completed_at else b.closed;
      })
      rows

unfoldable pub flow_bounds : List Row → Bounds
flow_bounds [] = record { started = zero_time; closed = zero_time }
flow_bounds (r ∷ rows) =
    widen (record { started = r.event.started_at; closed = r.event.completed_at }) rows

unfoldable pub hex_root : Bytes → String
hex_root root = concat "sha256:" (hex_encode root)

pub record CommitEnvelope : Type 0 where
  pub tenant_id : String
  pub event_id : String
  pub correlation_id : String

pub record SnapshotEvent : Type 0 where
  pub event_id : String
  pub ordinal : ℕ
  pub hash : String

pub record FlowSnapshot : Type 0 where
  pub flow_id : String
  pub tenant_id : String
  pub correlation_id : String
  pub window : Bounds
  pub events : List SnapshotEvent
  pub instrumentation_mode : String
  pub flow_merkle_root : String
  pub snapshot_uri : String

unfoldable pub snapshot_events : ℕ → List Row → List SnapshotEvent
snapshot_events i [] = []
snapshot_events i (r ∷ rows) =
    (record { event_id = r.event.event_id; ordinal = i; hash = hex_root r.event_hash })
    ∷ snapshot_events (suc i) rows

pub data HandleError : Type 0 where
  missing_fields no_events : HandleError

module _ (sha256 : Bytes → Bytes) where
  unfoldable pub compute_merkle_root : List Row → Bytes
  compute_merkle_root rows = root sha256 (map (λ (r : Row). r.event_hash) rows)

  -- The snapshot of the rows of a correlation.
  unfoldable pub snapshot : CommitEnvelope → List Row → FlowSnapshot
  snapshot env rows =
      let flow_id = concat "flow_" (concat env.correlation_id (concat "_" env.event_id)) in
      record {
        flow_id = flow_id;
        tenant_id = env.tenant_id;
        correlation_id = env.correlation_id;
        window = flow_bounds rows;
        events = snapshot_events 0 rows;
        instrumentation_mode = reduce_flow_mode (map mode_of rows);
        flow_merkle_root = hex_root (compute_merkle_root rows);
        snapshot_uri = concat "local://snapshot/" flow_id;
      }

  -- `handle`, up to the calls that store the snapshot and publish it.
  unfoldable pub build_flow : List Row → CommitEnvelope → Result HandleError FlowSnapshot
  build_flow rows env =
      let found = flow_rows rows env.tenant_id env.correlation_id in
      do
        guard (not (env.tenant_id == "" || env.correlation_id == "" || env.event_id == ""))
            missing_fields
        guard (not (is_empty found)) no_events
        ok (snapshot env found)
