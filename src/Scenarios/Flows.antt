-- ===== src/Scenarios/Flows.antt =====
-- Flows of the rows of Scenarios/Stores, and of two tenants with one correlation.
use intentproof_tools.Prelude.{◌≡◌, refl, List, [], ◌∷◌, some, ok, String, Eq-String}
use intentproof_tools.Prelude.Sorting
use intentproof_tools.Value
use intentproof_tools.Localloop.Types.{Row}
use intentproof_tools.Localloop.Flow
use intentproof_tools.Localloop.Flow.{CommitEnvelope, flow_rows, snapshot}
use intentproof_tools.Localloop.Flow.Tables.{
  Tables, get_flow_by_correlation_id, upsert_flow, handle,
}
use intentproof_tools.Localloop.Flow.Tables.Materialised.{handle-get}
use intentproof_tools.Scenarios.Stores.{first, second}

abbrev rows : List Row
rows = first ∷ second ∷ []

abbrev commit : CommitEnvelope
commit = record { tenant_id = "acme"; event_id = "e2"; correlation_id = first.event.correlation_id }

abbrev no_tables : Tables
no_tables = record { flows = []; snapshots = [] }

handle-get_example :
    (u : Tables) × (handle (λ t. "2026") (λ m. m) rows commit no_tables ≡ ok u)
    × (get_flow_by_correlation_id u commit.tenant_id commit.correlation_id
        ≡ some (snapshot (λ m. m) commit (flow_rows rows commit.tenant_id commit.correlation_id)))
unfolding flow_rows Flow.row_lt Sorting.sort Value.eq_ℤ
handle-get_example =
    handle-get (λ t. "2026") (λ m. m) rows commit no_tables (λ e. cc) (λ e. cc) (λ e. cc) refl refl
      refl

-- The snapshot of another tenant with the same correlation and event id takes the place of a tenant's own.
abbrev commit_of : String → CommitEnvelope
commit_of tenant = record { tenant_id = tenant; event_id = "e1"; correlation_id = "c1" }

overwritten :
    get_flow_by_correlation_id
      (upsert_flow
        (λ t. "2026")
        (snapshot (λ m. m) (commit_of "other") [])
        (upsert_flow (λ t. "2026") (snapshot (λ m. m) (commit_of "acme") []) no_tables))
      "acme"
      "c1"
    ≡ some (snapshot (λ m. m) (commit_of "other") [])
unfolding get_flow_by_correlation_id upsert_flow snapshot
overwritten = refl

-- Of two flows that close in one second, the one that closes later is taken for the earlier one, because
-- times are compared as texts and a full second has no fraction in RFC3339Nano.
abbrev closed_at : String → String → Tables
closed_at earlier later = record {
  flows =
      (record {
        tenant_id = "acme";
        flow_id = "flow_c1_e1";
        correlation_id = "c1";
        window_closed_at = earlier;
        event_count = 1;
        snapshot_uri = "s1";
      })
      ∷ (record {
        tenant_id = "acme";
        flow_id = "flow_c1_e2";
        correlation_id = "c1";
        window_closed_at = later;
        event_count = 2;
        snapshot_uri = "s2";
      })
      ∷ [];
  snapshots =
      ("s1", snapshot (λ m. m) (commit_of "acme") []) ∷ ("s2", snapshot (λ m. m) commit []) ∷ [];
}

stale :
    get_flow_by_correlation_id
      (closed_at "2026-01-01T00:00:00Z" "2026-01-01T00:00:00.5Z")
      "acme"
      "c1"
    ≡ some (snapshot (λ m. m) (commit_of "acme") [])
unfolding get_flow_by_correlation_id Sorting.str_lt
stale = refl
