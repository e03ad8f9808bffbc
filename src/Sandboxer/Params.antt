-- ===== src/Sandboxer/Params.antt =====
-- `parse_warm_fork_container_names` and `parse_warm_fork_params` of vmm/sandbox/src/sandbox.rs: what
-- the annotations of a pod say of the workloads of a warm-forked sandbox.
use kuasar.Prelude.{
  String, Bool, Option, none, some, List, [], ◌∷◌, ◌++◌, ◌==◌, any, map, if◌then◌else◌,
}
use kuasar.Prelude.Exec.{Result, ok, err}
use kuasar.Prelude.Map
use kuasar.Prelude.Map.{Map}
use kuasar.Prelude.Split.{split_commas, strip_prefix, trim}
use kuasar.Prelude.Text.{append}
use kuasar.Sandbox.State.{SandboxError, WarmForkParams, failed}
use kuasar.Template.Types.{WarmForkTarget}
use kuasar.WarmFork.Talk.{default_readiness_socket}

abbrev pub warm_fork_containers_annotation : String
warm_fork_containers_annotation = "kuasar.io/warm-fork-containers"

abbrev pub task_env_prefix : String
task_env_prefix = "kuasar.io/task-env/"

abbrev pub seen_in : String → List String → Bool
seen_in name names = any (λ n. n == name) names

-- The loop over the pieces of the annotation. The names so far are also the set of the names seen.
unfoldable pub collect_names : List String → List String → Result SandboxError (List String)
collect_names names [] = ok names
collect_names names (raw ∷ raws) =
    let name = trim raw in
    let rest = collect_names (names ++ name ∷ []) raws in
    if name == "" then err failed else if seen_in name names then err failed else rest

abbrev pub some_names : List String → Result SandboxError (Option (List String))
some_names [] = err failed
some_names (n ∷ ns) = ok (some (n ∷ ns))

unfoldable pub parse_warm_fork_container_names :
    Map String → Result SandboxError (Option (List String))
parse_warm_fork_container_names annotations =
    elim (Map.get warm_fork_containers_annotation annotations) [
      | none ↦ ok none
      | some v ↦ elim (collect_names [] (split_commas v)) [ err e ↦ err e | ok ns ↦ some_names ns ]
    ]

abbrev pub or_else : Option String → String → String
or_else none d = d
or_else (some v) d = v

abbrev filled : Option String → Option String
filled none = none
filled (some s) = if s == "" then none else some s

-- The annotations with the prefix, put over `env` without it.
unfoldable pub env_over : String → Map String → Map String → Map String
env_over prefix env [] = env
env_over prefix env ((k, v) ∷ a) = elim (strip_prefix k prefix) [
  | none ↦ env_over prefix env a
  | some env_key ↦ env_over prefix (Map.put env_key v env) a
]

abbrev pub pod_env : Map String → Map String
pod_env annotations = env_over task_env_prefix [] annotations

abbrev pub container_key : String → String → String
container_key name rest = append "kuasar.io/container/" (append name rest)

abbrev pod_socket : Map String → String
pod_socket a = or_else (Map.get "kuasar.io/warm-fork-readiness-socket" a) default_readiness_socket

abbrev pod_context : Map String → String
pod_context a = or_else (Map.get "kuasar.io/task-context" a) ""

unfoldable pub target_of : Map String → String → WarmForkTarget
target_of a name = record {
  container_name = name;
  container_id = "";
  socket_path =
      or_else (Map.get (container_key name "/warm-fork-readiness-socket") a) (pod_socket a);
  env_overrides = env_over (container_key name "/task-env/") (pod_env a) a;
  context = or_else (Map.get (container_key name "/task-context") a) (pod_context a);
}

-- Without the annotation there is one target, which has no name.
unfoldable pub pod_target : Map String → WarmForkTarget
pod_target a = record {
  container_name = "";
  container_id = "";
  socket_path = pod_socket a;
  env_overrides = pod_env a;
  context = pod_context a;
}

abbrev targets_of : Map String → Option (List String) → List WarmForkTarget
targets_of a none = pod_target a ∷ []
targets_of a (some names) = map (target_of a) names

unfoldable pub parse_warm_fork_params : Map String → Result SandboxError WarmForkParams
parse_warm_fork_params a = elim (parse_warm_fork_container_names a) [
  | err e ↦ err e
  | ok names ↦ ok (record {
    task_id = filled (Map.get "kuasar.io/task-id" a);
    targets = targets_of a names;
    prepare_timeout_ms = 10000;
    commit_timeout_ms = 5000;
  })
]
