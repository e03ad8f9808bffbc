-- ===== src/Sandboxer/Pins/Restoring.antt =====
-- The references that a restore by `start_from_snapshot` (vmm/sandbox/src/sandbox.rs) takes, and that
-- it gives back where it fails.
use kuasar.Prelude.{◌≡◌, refl, ap, ◌∙◌, none}
use kuasar.Prelude.Exec.{Keeps}
use kuasar.Prelude.Steps.{
  then-Triple, Triple, Keeps-Triple, on_error-Triple, on_error-Keeps, when-Keeps, ◌>>◌,
}
use kuasar.Sandbox.Host.{Hooks}
use kuasar.Sandbox.Lifecycle.{clear_template_restore_state, destroy_network}
use kuasar.Sandbox.State.{Action, KuasarSandbox, default_restore}
use kuasar.Sandbox.Tags.{Tags, Tagged, tags_of, destroy_network-Tagged, prepare_network-Tagged}
use kuasar.Sandbox.Tags.Restoring.{start_from_snapshot-Tagged}
use kuasar.Sandboxer.Restore.{network_up, restore_sandbox, restore_vm, record_restore}
use kuasar.Sandboxer.State.{Setting, SnapshotRestoreParams}

-- The hooks leave the restore metadata alone.
pub record HooksKeepTags {W : Type 0} (hooks : Hooks W) : Type 0 where
  pub post_create : (t : Tags) → Keeps (Tagged t) hooks.post_create
  pub pre_start : (t : Tags) → Keeps (Tagged t) hooks.pre_start
  pub post_start : (t : Tags) → Keeps (Tagged t) hooks.post_start
  pub pre_stop : (t : Tags) → Keeps (Tagged t) hooks.pre_stop
  pub post_stop : (t : Tags) → Keeps (Tagged t) hooks.post_stop

-- The restore metadata of the sandbox names no type of template.
abbrev pub KeepsNone : {W : Type 0} → KuasarSandbox W → Type 0
KeepsNone s = s.restore.template_snapshot_type ≡ none

module _ {W : Type 0} where
  pub Tagged-KeepsNone :
      (m : Action W (Unit {0})) → ((t : Tags) → Keeps (Tagged t) m) → Keeps (KeepsNone) m
  Tagged-KeepsNone m k = record {
    from = λ s h. (ap (λ t. t.template_snapshot_type) ((k (tags_of s.restore)).from s refl)) ∙ h;
  }

module _ {W : Type 0} (setting : Setting W) (params : SnapshotRestoreParams) where
  -- The tags of a sandbox that these parameters restored.
  abbrev pub target : Tags
  target = tags_of (record_restore setting params default_restore)

  module _ (law : HooksKeepTags setting.hooks) where
    network_up-Tagged : (t : Tags) → Keeps (Tagged t) (network_up setting params)
    network_up-Tagged t = record {
      from = λ s p.
          (when-Keeps (Tagged t) _ _ (
              on_error-Keeps (Tagged t) _ _ (prepare_network-Tagged setting.host t)
                (destroy_network-Tagged setting.host t))).from
            s p;
    }

    cleared :
        (s : KuasarSandbox W)
        → Tagged target s
        → KeepsNone
            ((clear_template_restore_state setting.host >> destroy_network setting.host) s).1
    unfolding clear_template_restore_state ◌>>◌
    cleared s p =
        (Tagged-KeepsNone _ (destroy_network-Tagged setting.host)).from
          (record s { restore = default_restore }) refl

    restore_vm-target :
        Triple (Tagged target) (restore_vm setting params) (λ a. Tagged target) (KeepsNone)
    restore_vm-target = record {
      ends = λ s p.
          (on_error-Triple _ _ (Keeps-Triple _ _ (start_from_snapshot-Tagged setting.host target _))
              cleared).ends
            s p;
    }

    pub restore_sandbox-target :
        Triple (KeepsNone) (restore_sandbox setting params) (λ a. Tagged target) (KeepsNone)
    unfolding restore_sandbox
    restore_sandbox-target = then-Triple _ _ (Keeps-Triple _ _ (Tagged-KeepsNone _ law.pre_start)) (
        then-Triple _ _ (Keeps-Triple _ _ (Tagged-KeepsNone _ network_up-Tagged))
          (then-Triple _ _ (record { ends = λ s p. refl }) restore_vm-target))
