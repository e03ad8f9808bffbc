-- ===== src/Sandbox/Storages.antt =====
-- The references of containers to the storages of a sandbox (vmm/sandbox/src/storage/mod.rs), and
-- the release of their artifacts (vmm/sandbox/src/storage/block_provider.rs).
use kuasar.Prelude.{
  String, Bool, not, Option, none, some, List, [], ◌∷◌, ◌==◌, ◌&&◌, eqb, map, retain, if◌then◌else◌,
}
use kuasar.Prelude.Exec.{pure, fail, modify, ok, err, Result}
use kuasar.Prelude.Steps.{◌>>◌}
use kuasar.Prelude.Map
use kuasar.Prelude.Text.{append}
use kuasar.Sandbox.Host.{Host, PathResult, done, absent, refused}
use kuasar.Sandbox.State.{Action, Call, KuasarSandbox, SandboxError, failed, on_vm}
use kuasar.Storage.{Storage, Mount, is_for_mount, ref_count, defer}

unfoldable pub get_sandbox_shared_path : {W : Type 0} → KuasarSandbox W → String
get_sandbox_shared_path s = append s.base_dir "/shared"

abbrev pub holds : String → Storage → Bool
holds container_id s = Map.contains_key container_id s.ref_container

abbrev pub defer_all : String → List Storage → List Storage
defer_all container_id = map (λ s. if holds container_id s then defer container_id s else s)

-- `iter_mut().find(...)` and `defer`.
unfoldable pub defer_first : String → Mount → List Storage → List Storage
defer_first container_id m [] = []
defer_first container_id m (s ∷ ss) =
    let rest = defer_first container_id m ss in
    if is_for_mount s m && holds container_id s then defer container_id s ∷ ss else s ∷ rest

unfoldable pub unused : Storage → Bool
unused s = eqb (ref_count s) 0

-- A path that is gone already counts as removed.
abbrev removed : {W : Type 0} → PathResult × W → Result SandboxError (Unit {0}) × W
removed (done, w) = (ok tt, w)
removed (absent, w) = (ok tt, w)
removed (refused, w) = (err failed, w)

module _ {W : Type 0} (host : Host W) where
  abbrev pub remove_mount_point : String → Call W (Unit {0})
  remove_mount_point path w =
      if host.is_dir path w
      then removed (host.remove_dir path w)
      else removed (host.remove_file path w)

  -- `LocalBlockProvider::release` of the artifact at this path; a failure is only logged.
  abbrev release_artifact : Option String → Action W (Unit {0})
  release_artifact none = fail failed
  release_artifact (some path) = on_vm (λ w. (ok tt, (host.remove_file path w).1))

  abbrev detach_device : Storage → String → Action W (Unit {0})
  detach_device s device_id = do
    on_vm (host.hot_detach device_id)
    if s.owned_by_runtime then release_artifact s.cleanup_path else pure tt

  abbrev detach_bind : String → Action W (Unit {0})
  detach_bind mount_point = on_vm do host.unmount mount_point; remove_mount_point mount_point

  unfoldable pub detach_storage : Storage → Action W (Unit {0})
  unfolding get_sandbox_shared_path append
  detach_storage s sb = elim s.device_id [
    | some device_id ↦ detach_device s device_id sb
    | none ↦
        if s.driver == "guest-file"
        then (ok tt, sb)
        else if s.fstype == "bind"
        then detach_bind (append (append (get_sandbox_shared_path sb) "/") s.id) sb
        else (ok tt, sb)
  ]

  abbrev pub forget_storage : String → Action W (Unit {0})
  forget_storage id =
      modify λ sb. record sb { storages = retain (λ s. not (s.id == id)) sb.storages }

  unfoldable pub detach_each : List Storage → Action W (Unit {0})
  detach_each [] = pure tt
  detach_each (s ∷ ss) = do detach_storage s; forget_storage s.id; detach_each ss

  unfoldable pub gc_storages : Action W (Unit {0})
  gc_storages sb = detach_each (retain unused sb.storages) sb

  unfoldable pub deference_storage : String → Mount → Action W (Unit {0})
  deference_storage container_id m = do
    modify λ sb. record sb { storages = defer_first container_id m sb.storages }
    gc_storages

  unfoldable pub deference_container_storages : String → Action W (Unit {0})
  deference_container_storages container_id = do
    modify λ sb. record sb { storages = defer_all container_id sb.storages }
    gc_storages
