-- ===== src/Examples/Targets.antt =====
-- The theorems on the annotations of warm-forked pods, at concrete annotations.
use kuasar.Prelude.{String, ◌≡◌, ◌↔◌, refl, some, [], ◌∷◌, ◌==◌, map, All, none}
use kuasar.Prelude.Exec.{ok}
use kuasar.Prelude.Map
use kuasar.Prelude.Map.{Map}
use kuasar.Prelude.Split.{split_commas, strip_prefix, trim, trim_end, trim_start}
use kuasar.Prelude.Text.{append}
use kuasar.Sandbox.State.{WarmForkParams}
use kuasar.Sandboxer.Params.{
  collect_names, env_over, parse_warm_fork_container_names, parse_warm_fork_params, target_of,
}
use kuasar.Sandboxer.Targets.{
  Distinct, HasEnv, Named, parse_warm_fork_container_names_iff, parse_warm_fork_params-targets,
  pieces,
}

abbrev two_containers : Map String
two_containers =
    ("kuasar.io/warm-fork-containers", "app, proxy")
    ∷ ("kuasar.io/task-env/LEVEL", "info")
    ∷ ("kuasar.io/container/app/task-env/LEVEL", "debug")
    ∷ []

abbrev two_targets : WarmForkParams
two_targets = record {
  task_id = none;
  targets =
      record {
        container_name = "app";
        container_id = "";
        socket_path = "/run/warmfork-readiness.sock";
        env_overrides = ("LEVEL", "debug") ∷ [];
        context = "";
      }
      ∷ record {
        container_name = "proxy";
        container_id = "";
        socket_path = "/run/warmfork-readiness.sock";
        env_overrides = ("LEVEL", "info") ∷ [];
        context = "";
      }
      ∷ [];
  prepare_timeout_ms = 10000;
  commit_timeout_ms = 5000;
}

parses_two_containers : parse_warm_fork_params two_containers ≡ ok two_targets
unfolding parse_warm_fork_params parse_warm_fork_container_names collect_names env_over target_of
    split_commas strip_prefix trim trim_end trim_start Map.get Map.put append ◌==◌
parses_two_containers = refl

parse_warm_fork_container_names_iff_example :
    (parse_warm_fork_container_names two_containers ≡ ok (some ("app" ∷ "proxy" ∷ []))) ↔ (
      ("app" ∷ "proxy" ∷ [] ≡ pieces "app, proxy")
      × Named ("app" ∷ "proxy" ∷ [])
      × Distinct ("app" ∷ "proxy" ∷ []))
unfolding Map.get ◌==◌
parse_warm_fork_container_names_iff_example =
    parse_warm_fork_container_names_iff two_containers "app, proxy" ("app" ∷ "proxy" ∷ []) refl

parse_warm_fork_params-targets_example :
    (map (λ t. t.container_name) two_targets.targets ≡ pieces "app, proxy")
    × All (HasEnv two_containers) two_targets.targets
unfolding Map.get Map.contains_key ◌==◌
parse_warm_fork_params-targets_example =
    parse_warm_fork_params-targets two_containers "app, proxy" (refl, (refl, (refl, tt))) refl
      parses_two_containers
