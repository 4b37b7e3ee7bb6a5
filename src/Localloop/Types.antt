-- ===== src/Localloop/Types.antt =====
-- pkg/localloop/types.go, and what a row of the table execution_events holds (store.go).
use intentproof_tools.Prelude.{String}
use intentproof_tools.Prelude.Int.{ℤ}
use intentproof_tools.Merkle.{Bytes}
use intentproof_tools.Value.{Value, Fields}
use intentproof_tools.Verifier.Time.{Time}

pub record Signature : Type 0 where
  pub alg : String
  pub key_id : String
  pub value : String

pub record ExecutionEvent : Type 0 where
  pub schema : String
  pub event_id : String
  pub tenant_id : String
  pub instance_id : String
  pub correlation_id : String
  pub prev_event_hash : String
  pub chain_position : ℤ
  pub intent : String
  pub action : String
  pub status : String
  pub started_at : Time
  pub completed_at : Time
  pub duration_ms : ℤ
  pub inputs : Value
  pub output : Value
  pub error : Value
  pub attributes : Fields
  pub spec_version : String
  pub sdk_version : String
  pub signature : Signature

-- A row: its columns are fields of the event, `body` is the event as JSON, and the hash.
pub record Row : Type 0 where
  pub event : ExecutionEvent
  pub event_hash : Bytes
