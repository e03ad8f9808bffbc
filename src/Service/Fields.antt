-- ===== src/Service/Fields.antt =====
-- The fields of a management request and the checks on them, and the fields of an answer
-- (vmm/sandbox/src/service/mod.rs).
use Prim.Native.Char.{code}
use Prim.Native.String.{[] as empty, ◌∷◌ as char_before}
use kuasar.Prelude.{
  ℕ, ◌+◌, String, Bool, true, false, not, ◌&&◌, ◌||◌, Option, ◌==◌, eqb, leb, ltb, if◌then◌else◌,
}
use kuasar.Prelude.Exec.{Result, ok, err}
use kuasar.Sandbox.State.{SandboxStatus, created, running, stopped, paused}
use kuasar.Template.Pool.State.{PoolError}
use kuasar.Template.Types.{
  PooledTemplate, SnapshotType, WorkloadIdentity, environment, warm_fork, continuation,
}

-- `as_str` and `as_u64` of a field of the request.
pub record Fields : Type 0 where
  pub sandbox_id : Option String
  pub template_id : Option String
  pub kind : Option String
  pub pod_uid : Option String
  pub target_depth : Option ℕ
  pub generation : Option ℕ

pub data ServiceError : Type 0 where
  not_configured missing_field invalid_field not_found : ServiceError
  unknown_kind is_continuation not_refilled generation_too_large delete_failed : ServiceError
  pool_error : PoolError → ServiceError

-- The bytes of a character in UTF-8.
abbrev width : ℕ → ℕ
width n = if ltb n 128 then 1 else if ltb n 2048 then 2 else if ltb n 65536 then 3 else 4

unfoldable pub byte_length : String → ℕ
byte_length empty = 0
byte_length (char_before c s) = width (code c) + byte_length s

abbrev is_alphanumeric : ℕ → Bool
is_alphanumeric n =
    leb b'a' n && leb n b'z' || (leb b'A' n && leb n b'Z' || leb b'0' n && leb n b'9')

unfoldable pub all_chars : (ℕ → Bool) → String → Bool
all_chars f empty = true
all_chars f (char_before c s) = f (code c) && all_chars f s

abbrev first_is : (ℕ → Bool) → String → Bool
first_is f empty = false
first_is f (char_before c s) = f (code c)

abbrev last_is : (ℕ → Bool) → String → Bool
last_is f empty = false
last_is f (char_before c empty) = f (code c)
last_is f (char_before c (char_before d s)) = last_is f (char_before d s)

abbrev is_id_char : ℕ → Bool
is_id_char n = is_alphanumeric n || (eqb n b'-' || eqb n b'_')

abbrev is_key_char : ℕ → Bool
is_key_char n = is_id_char n || eqb n b'.'

unfoldable pub validate_key : String → Result ServiceError (Unit {0})
unfolding byte_length all_chars
validate_key key =
    if key == "" || ltb 253 (byte_length key)
    then err invalid_field
    else if not (first_is is_alphanumeric key && last_is is_alphanumeric key)
    then err invalid_field
    else if all_chars is_key_char key
    then ok tt
    else err invalid_field

unfoldable pub validate_id : String → Result ServiceError (Unit {0})
unfolding byte_length all_chars
validate_id id =
    if ltb (byte_length id) 12 || ltb 64 (byte_length id)
    then err invalid_field
    else if all_chars is_id_char id
    then ok tt
    else err invalid_field

abbrev pub sandbox_status_str : SandboxStatus → String
sandbox_status_str created = "created"
sandbox_status_str (running pid) = "running"
sandbox_status_str (stopped code timestamp) = "stopped"
sandbox_status_str paused = "unknown"

abbrev pub snapshot_type_str : SnapshotType → String
snapshot_type_str environment = "environment"
snapshot_type_str warm_fork = "warm_fork"
snapshot_type_str continuation = "continuation"

pub record TemplateItem : Type 0 where
  pub template_id : String
  pub snapshot_type : String
  pub key : String
  pub created_at_secs : ℕ
  pub snapshot_dir : String
  pub identity : Option WorkloadIdentity

unfoldable pub template_json : PooledTemplate → TemplateItem
template_json t = record {
  template_id = t.id;
  snapshot_type = snapshot_type_str t.snapshot_type;
  key = t.key.key;
  created_at_secs = t.created_at_secs;
  snapshot_dir = t.snapshot_dir;
  identity = t.workload_identity;
}
