-- ===== src/Localloop/Flow/Tables/Materialised.antt =====
-- Handling a commit, and the flow that its correlation gives then (pkg/localloop/flowbuilder.go).
use text.Mathlib.TextEquality.{eq_iff}
use intentproof_tools.Prelude.{
  String, List, [], ◌∷◌, ◌≡◌, refl, false, ◌&&◌, some, ◌==◌, Eq-String, keep, is_empty, ok, eq-true,
  eq-false, ◌≢◌, any, arith, Bool-cases, inl, inr,
}
use intentproof_tools.Merkle.{Bytes}
use intentproof_tools.Verifier.Time.{Time}
use intentproof_tools.Localloop.Types.{Row}
use intentproof_tools.Localloop.Flow.{FlowSnapshot, CommitEnvelope, flow_rows, snapshot, build_flow}
use intentproof_tools.Localloop.Flow.Tables.{
  FlowRow, Tables, upsert_row, upsert_snapshot, stored_snapshot, first_joined, of_correlation,
  get_flow_by_correlation_id, flow_row, upsert_flow, handle,
}

stored_snapshot-upsert_snapshot :
    (id : String) (snap : FlowSnapshot) (rows : List (String × FlowSnapshot))
    → stored_snapshot id (upsert_snapshot id snap rows) ≡ some snap
unfolding stored_snapshot upsert_snapshot
stored_snapshot-upsert_snapshot id snap [] = rw (eq-true id id refl) refl
stored_snapshot-upsert_snapshot id snap ((j, old) ∷ rows) = elim (Bool-cases (j == id)) [
  | inl e ↦ rw (e, e) refl
  | inr e ↦ rw (e, e) (stored_snapshot-upsert_snapshot id snap rows)
]

-- No row has the correlation, and none the id of the new flow.
keep-upsert_row :
    (new : FlowRow) (rows : List FlowRow)
    → keep (of_correlation new.tenant_id new.correlation_id) rows ≡ []
    → any (λ (r : FlowRow). r.tenant_id == new.tenant_id && r.flow_id == new.flow_id) rows ≡ false
    → keep (of_correlation new.tenant_id new.correlation_id) (upsert_row new rows) ≡ new ∷ []
unfolding upsert_row
keep-upsert_row new [] h k =
    ground (arith, eq_iff new.tenant_id new.tenant_id, eq_iff new.correlation_id new.correlation_id)
keep-upsert_row new (r ∷ rows) h k = ground (arith, keep-upsert_row new rows)

get-upsert_flow :
    (format_nano : Time → String) (snap : FlowSnapshot) (t : Tables)
    → keep (of_correlation snap.tenant_id snap.correlation_id) t.flows ≡ []
    → any (λ (r : FlowRow). r.tenant_id == snap.tenant_id && r.flow_id == snap.flow_id) t.flows
      ≡ false
    → get_flow_by_correlation_id (upsert_flow format_nano snap t) snap.tenant_id snap.correlation_id
      ≡ some snap
unfolding get_flow_by_correlation_id upsert_flow first_joined
get-upsert_flow format_nano snap t h k =
    rw (keep-upsert_row (flow_row format_nano snap) t.flows h k)
      (rw (stored_snapshot-upsert_snapshot snap.snapshot_uri snap t.snapshots) refl)

build_flow-ok :
    (sha256 : Bytes → Bytes) (rows : List Row) (env : CommitEnvelope)
    → env.tenant_id ≢ ""
    → env.correlation_id ≢ ""
    → env.event_id ≢ ""
    → is_empty (flow_rows rows env.tenant_id env.correlation_id) ≡ false
    → build_flow sha256 rows env
      ≡ ok (snapshot sha256 env (flow_rows rows env.tenant_id env.correlation_id))
unfolding build_flow
build_flow-ok sha256 rows env a b c d =
    rw
      (eq-false env.tenant_id "" a, eq-false env.correlation_id "" b, eq-false env.event_id "" c, d)
      refl

-- If a commit names its tenant, correlation and event, and the correlation has events but no flow, nor any
-- flow of the tenant the new id, then the commit is handled, and the tables that this leaves give the snapshot of
-- its events for the correlation.
pub handle-get :
    (format_nano : Time → String) (sha256 : Bytes → Bytes) (rows : List Row) (env : CommitEnvelope)
    (t : Tables)
    → env.tenant_id ≢ ""
    → env.correlation_id ≢ ""
    → env.event_id ≢ ""
    → is_empty (flow_rows rows env.tenant_id env.correlation_id) ≡ false
    → keep (of_correlation env.tenant_id env.correlation_id) t.flows ≡ []
    → any
        (λ (r : FlowRow).
          r.tenant_id == env.tenant_id && r.flow_id == (snapshot sha256 env rows).flow_id)
        t.flows
      ≡ false
    → (u : Tables) × (handle format_nano sha256 rows env t ≡ ok u)
      × (get_flow_by_correlation_id u env.tenant_id env.correlation_id
          ≡ some (snapshot sha256 env (flow_rows rows env.tenant_id env.correlation_id)))
unfolding handle snapshot
handle-get format_nano sha256 rows env t a b c d h k =
    let snap = snapshot sha256 env (flow_rows rows env.tenant_id env.correlation_id) in
    (
      upsert_flow format_nano snap t,
      rw (build_flow-ok sha256 rows env a b c d) refl,
      get-upsert_flow format_nano snap t h k,
    )
