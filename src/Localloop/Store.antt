-- ===== src/Localloop/Store.antt =====
-- `checkChain` (pkg/localloop/store_chain.go) and `StoreEvent` (store_events.go) on the rows of the
-- table execution_events. A query gives the rows that its WHERE clause selects; failures of the
-- database itself are left out, so that a call either commits or leaves the rows as they were.
pub mod Chain
pub mod Reachable
use Prim.Native.String.{◌++◌ as concat}
use intentproof_tools.Prelude.{
  String, List, [], ◌∷◌, ◌++◌, Bool, true, false, not, ◌&&◌, ◌==◌, Eq-String, if◌then◌else◌, keep,
  any, trim_space, to_lower, Result, err, ok, ◌>>=◌, ◌>>◌, guard,
}
use intentproof_tools.Prelude.Int.{ℤ, pos, ◌-ℤ◌}
use intentproof_tools.Prelude.Bytes.{hex_encode}
use intentproof_tools.Merkle.{Bytes}
use intentproof_tools.Value.{eq_ℤ}
use intentproof_tools.Localloop.Types.{ExecutionEvent, Row}

-- The errors that wrap ErrChainConflict, and the violation of the index ux_events_chain_slot.
pub data StoreError : Type 0 where
  first_not_sentinel chain_gap prev_mismatch forked_previous : StoreError
  occupied forked_current slot_taken : StoreError

abbrev pub sentinel : String
sentinel = "sha256:0000000000000000000000000000000000000000000000000000000000000000"

unfoldable pub normalize_prev_event_hash : String → String
normalize_prev_event_hash s = to_lower (trim_space s)

-- `FormatChainHash`
unfoldable pub format_chain_hash : Bytes → String
format_chain_hash d = concat "sha256:" (hex_encode d)

-- The WHERE clause of both queries.
unfoldable pub in_slot : ExecutionEvent → ℤ → Row → Bool
in_slot ev position row =
    row.event.tenant_id == ev.tenant_id
    && row.event.instance_id == ev.instance_id
    && row.event.correlation_id == ev.correlation_id
    && eq_ℤ row.event.chain_position position

abbrev pub slot : List Row → ExecutionEvent → ℤ → List Row
slot rows ev position = keep (in_slot ev position) rows

abbrev pub previous : ExecutionEvent → ℤ
previous ev = ev.chain_position -ℤ pos 1

-- The switch over the rows at the previous position.
unfoldable pub check_previous : ExecutionEvent → List Row → Result StoreError (Unit {0})
check_previous ev [] = err chain_gap
check_previous ev (p ∷ []) =
    guard (normalize_prev_event_hash ev.prev_event_hash == format_chain_hash p.event_hash)
      prev_mismatch
check_previous ev (p ∷ q ∷ rows) = err forked_previous

-- The switch over the rows at the position of the event.
unfoldable pub check_occupants : ExecutionEvent → List Row → Result StoreError (Unit {0})
check_occupants ev [] = ok tt
check_occupants ev (o ∷ []) = guard (o.event.event_id == ev.event_id) occupied
check_occupants ev (o ∷ q ∷ rows) = err forked_current

unfoldable pub check_link : List Row → ExecutionEvent → Result StoreError (Unit {0})
check_link rows ev =
    if eq_ℤ ev.chain_position (pos 1)
    then guard (normalize_prev_event_hash ev.prev_event_hash == sentinel) first_not_sentinel
    else check_previous ev (slot rows ev (previous ev))

unfoldable pub check_chain : List Row → ExecutionEvent → Result StoreError (Unit {0})
check_chain rows ev = do check_link rows ev; check_occupants ev (slot rows ev ev.chain_position)

-- The primary key of the table.
unfoldable pub same_key : ExecutionEvent → Row → Bool
same_key ev row = row.event.tenant_id == ev.tenant_id && row.event.event_id == ev.event_id

-- The INSERT statement: a row with the event's key makes it do nothing, and another row in the event's
-- slot violates the unique index. It also tells whether a row went in.
unfoldable pub insert_row : List Row → ExecutionEvent → Bytes → Result StoreError (List Row × Bool)
insert_row rows ev hash =
    if any (same_key ev) rows
    then ok (rows, false)
    else if any (in_slot ev ev.chain_position) rows
    then err slot_taken
    else ok (rows ++ (record { event = ev; event_hash = hash }) ∷ [], true)

unfoldable pub store_event : List Row → ExecutionEvent → Bytes → Result StoreError (List Row × Bool)
store_event rows ev hash = do check_chain rows ev; insert_row rows ev hash
