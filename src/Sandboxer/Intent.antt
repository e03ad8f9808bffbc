-- ===== src/Sandboxer/Intent.antt =====
-- `parse_snapshot_intent` of `KuasarSandboxer` (vmm/sandbox/src/sandbox.rs): what the annotations of a
-- pod ask for.
use kuasar.Prelude.{
  ℕ, ◌-◌, ◌^◌, String, Bool, true, false, not, ◌||◌, Option, none, some, leb, if◌then◌else◌,
}
use kuasar.Prelude.Exec.{Result, ok, err}
use kuasar.Prelude.Map
use kuasar.Prelude.Map.{Map}
use kuasar.Sandbox.State.{SandboxError, failed}
use kuasar.Sandboxer.Restore.{is_type}
use kuasar.Template.Types.{
  SnapshotType, WorkloadIdentity, continuation, environment, from_annotation, warm_fork,
}

pub record SnapshotIntent : Type 0 where
  pub explicit_type : Option SnapshotType
  pub cont_identity : Option WorkloadIdentity
  pub template_id : Option String
  pub template_key : Option String

abbrev annotation : String → Option (Map String) → Option String
annotation k none = none
annotation k (some a) = Map.get k a

abbrev explicit : Option String → Result SandboxError (Option SnapshotType)
explicit none = ok none
explicit (some v) = elim (from_annotation v) [ none ↦ err failed | some t ↦ ok (some t) ]

abbrev bounded : String → Option ℕ → Result SandboxError (Option WorkloadIdentity)
bounded uid none = err failed
bounded uid (some v) =
    if leb v (2 ^ 32 - 1) then ok (some (record { pod_uid = uid; generation = v })) else err failed

abbrev generation_of :
    (String → Option ℕ) → String → Option String → Result SandboxError (Option WorkloadIdentity)
generation_of parse uid none = ok (some (record { pod_uid = uid; generation = 0 }))
generation_of parse uid (some s) = bounded uid (parse s)

abbrev identity_of :
    (String → Option ℕ)
    → Option (Map String)
    → Option String
    → Result SandboxError (Option WorkloadIdentity)
identity_of parse a none = ok none
identity_of parse a (some uid) =
    generation_of parse uid (annotation "kuasar.io/workload-generation" a)

abbrev unless_type : Bool → Option String → Option String
unless_type true o = none
unless_type false o = o

abbrev with_identity :
    Option (Map String)
    → Option SnapshotType
    → Result SandboxError (Option WorkloadIdentity)
    → Result SandboxError SnapshotIntent
with_identity a t (err e) = err e
with_identity a t (ok identity) =
    let skip = is_type environment t || is_type continuation t in
    ok (record {
      explicit_type = t;
      cont_identity = identity;
      template_id = unless_type skip (annotation "kuasar.io/template-id" a);
      template_key = unless_type skip (annotation "kuasar.io/template-key" a);
    })

abbrev intent_of :
    (String → Option ℕ)
    → Bool
    → Option (Map String)
    → Result SandboxError (Option SnapshotType)
    → Result SandboxError SnapshotIntent
intent_of parse continuations a (err e) = err e
intent_of parse continuations a (ok t) = with_identity a t (
    if (is_type environment t || is_type warm_fork t) || not continuations
    then ok none
    else identity_of parse a (annotation "kuasar.io/pod-uid" a))

-- What the annotations ask for; `continuations` says if their restore is enabled.
unfoldable pub parse_annotations :
    (String → Option ℕ) → Bool → Option (Map String) → Result SandboxError SnapshotIntent
parse_annotations parse continuations a =
    intent_of parse continuations a (explicit (annotation "kuasar.io/snapshot-type" a))
