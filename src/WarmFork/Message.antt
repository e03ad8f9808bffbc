-- ===== src/WarmFork/Message.antt =====
-- The messages of vmm/common/src/warmfork/message.rs.
use kuasar.Prelude.{ℕ, String, List, ◌*◌}
use kuasar.Prelude.Map.{Map}

abbrev pub protocol_version : String
protocol_version = "1"

abbrev pub max_frame_len : ℕ
max_frame_len = 4 * 1024 * 1024

pub record Capabilities : Type 0 where
  pub protocol_version : String
  pub supported_features : List String

pub data RejectReason : Type 0 where
  parse_error invalid_task_id resource_exhausted : RejectReason

unfoldable pub as_str : RejectReason → String
as_str parse_error = "parse_error"
as_str invalid_task_id = "invalid_task_id"
as_str resource_exhausted = "resource_exhausted"

pub data WorkloadMessage : Type 0 where
  capabilities : Capabilities → WorkloadMessage
  ready started cancel_ack : WorkloadMessage
  reject : RejectReason → String → WorkloadMessage

pub record PreparePayload : Type 0 where
  pub task_id : String
  pub env_overrides : Map String
  pub context : String

pub data SandboxerMessage : Type 0 where
  prepare : PreparePayload → SandboxerMessage
  commit : SandboxerMessage
  cancel : String → SandboxerMessage
