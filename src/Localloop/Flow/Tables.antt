-- ===== src/Localloop/Flow/Tables.antt =====
-- The tables flows and snapshots: `UpsertFlow` and `GetFlowByCorrelationID` (pkg/localloop/store_flows.go),
-- and the rest of `handle` (flowbuilder.go). The body of a snapshot is the snapshot itself.
pub mod Materialised
use intentproof_tools.Prelude.{
  ℕ, String, List, [], ◌∷◌, Bool, true, false, not, ◌&&◌, Option, none, some, ltb, ◌==◌, Eq-String,
  Eq-ℕ, if◌then◌else◌, keep, length, Result, err, ok, ◌>>=◌,
}
use intentproof_tools.Prelude.Sorting.{sort, str_lt}
use intentproof_tools.Merkle.{Bytes}
use intentproof_tools.Verifier.Time.{Time}
use intentproof_tools.Localloop.Types.{Row}
use intentproof_tools.Localloop.Flow.{FlowSnapshot, CommitEnvelope, HandleError, build_flow}

-- A row of flows, as far as the queries read it. Its time is a text in RFC3339Nano.
pub record FlowRow : Type 0 where
  pub tenant_id : String
  pub flow_id : String
  pub correlation_id : String
  pub window_closed_at : String
  pub event_count : ℕ
  pub snapshot_uri : String

pub record Tables : Type 0 where
  pub flows : List FlowRow
  pub snapshots : List (String × FlowSnapshot)

-- `ON CONFLICT (tenant_id, flow_id) DO UPDATE`, which keeps the correlation of the row.
unfoldable pub upsert_row : FlowRow → List FlowRow → List FlowRow
upsert_row new [] = new ∷ []
upsert_row new (r ∷ rows) =
    if r.tenant_id == new.tenant_id && r.flow_id == new.flow_id
    then record new { correlation_id = r.correlation_id } ∷ rows
    else r ∷ upsert_row new rows

-- `ON CONFLICT (snapshot_id) DO UPDATE`
unfoldable pub upsert_snapshot :
    String → FlowSnapshot → List (String × FlowSnapshot) → List (String × FlowSnapshot)
upsert_snapshot id snap [] = (id, snap) ∷ []
upsert_snapshot id snap ((j, old) ∷ rows) =
    if j == id then (j, snap) ∷ rows else (j, old) ∷ upsert_snapshot id snap rows

-- `JOIN snapshots s ON s.snapshot_id = f.snapshot_uri`, for the row of one flow.
unfoldable pub stored_snapshot : String → List (String × FlowSnapshot) → Option FlowSnapshot
stored_snapshot id [] = none
stored_snapshot id ((j, snap) ∷ rows) = if j == id then some snap else stored_snapshot id rows

-- `ORDER BY f.window_closed_at DESC, f.event_count DESC, f.flow_id DESC`
unfoldable pub flow_row_lt : FlowRow → FlowRow → Bool
flow_row_lt r s =
    if not (r.window_closed_at == s.window_closed_at)
    then str_lt s.window_closed_at r.window_closed_at
    else if not (r.event_count == s.event_count)
    then ltb s.event_count r.event_count
    else str_lt s.flow_id r.flow_id

-- The first row of the join.
abbrev or_next : Option FlowSnapshot → Option FlowSnapshot → Option FlowSnapshot
or_next (some snap) rest = some snap
or_next none rest = rest

unfoldable pub first_joined : List (String × FlowSnapshot) → List FlowRow → Option FlowSnapshot
unfolding stored_snapshot
first_joined snapshots [] = none
first_joined snapshots (r ∷ rows) =
    or_next (stored_snapshot r.snapshot_uri snapshots) (first_joined snapshots rows)

abbrev pub of_correlation : String → String → FlowRow → Bool
of_correlation tenant correlation f = f.tenant_id == tenant && f.correlation_id == correlation

-- `GetFlowByCorrelationID`, where none is sql.ErrNoRows.
unfoldable pub get_flow_by_correlation_id : Tables → String → String → Option FlowSnapshot
unfolding sort flow_row_lt first_joined
get_flow_by_correlation_id t tenant correlation =
    first_joined t.snapshots (sort flow_row_lt (keep (of_correlation tenant correlation) t.flows))

module _ (format_nano : Time → String) where
  abbrev pub flow_row : FlowSnapshot → FlowRow
  flow_row snap = record {
    tenant_id = snap.tenant_id;
    flow_id = snap.flow_id;
    correlation_id = snap.correlation_id;
    window_closed_at = format_nano snap.window.closed;
    event_count = length snap.events;
    snapshot_uri = snap.snapshot_uri;
  }

  unfoldable pub upsert_flow : FlowSnapshot → Tables → Tables
  unfolding upsert_row upsert_snapshot
  upsert_flow snap t = record {
    flows = upsert_row (flow_row snap) t.flows;
    snapshots = upsert_snapshot snap.snapshot_uri snap t.snapshots;
  }

  -- `handle`, up to the message that it publishes.
  unfoldable pub handle :
      (Bytes → Bytes) → List Row → CommitEnvelope → Tables → Result HandleError Tables
  unfolding build_flow upsert_flow
  handle sha256 rows env t = do snap ← build_flow sha256 rows env; ok (upsert_flow snap t)
