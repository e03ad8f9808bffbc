-- ===== src/Sandboxer/Pins.antt =====
-- Which template a sandbox of vmm/sandbox/src/sandbox.rs keeps in the pool, and the other places of
-- that file that read it from the restore metadata: the deletion and the recovery.
pub mod Counts
pub mod Restoring
pub mod Starting
pub mod Releasing
pub mod Requests
pub mod Deleting
pub mod Serving
use kuasar.Prelude.{
  ℕ, ◌+◌, String, Bool, false, Option, none, some, [], ◌∷◌, ◌==◌, ◌≡◌, ◌&&◌, ◌||◌, if◌then◌else◌,
}
use kuasar.Prelude.Map.{Map}
use kuasar.Prelude.Totals.{IsUnique, total}
use kuasar.Sandbox.State.{KuasarSandbox}
use kuasar.Sandbox.Tags.{Tags, tags_of}
use kuasar.Sandboxer.Restore.{is_type, non_copy}
use kuasar.Sandboxer.State.{KuasarSandboxer}
use kuasar.Template.Pool.Counting.{count}
use kuasar.Template.Pool.State.{TemplatePool}
use kuasar.Template.Pool.Validity.{IsValid}
use kuasar.Template.Types.{TemplateLeaseMode, environment, warm_fork, is_shared}

abbrev pub shared_lease : Option TemplateLeaseMode → Bool
shared_lease none = false
shared_lease (some m) = is_shared m

-- A shared warm fork, or an environment whose snapshot backs the memory of the VM.
abbrev pub holds_ref : Tags → Bool
holds_ref t =
    (is_type warm_fork t.template_snapshot_type && shared_lease t.lease_mode)
    || (is_type environment t.template_snapshot_type && non_copy t.memory_restore_mode)

abbrev pub pin_of_id : Option String → Bool → String → ℕ
pin_of_id none held x = 0
pin_of_id (some tid) held x = if held && tid == x then 1 else 0

-- The references of a sandbox to the template `x`: one or none.
abbrev pub pins : Tags → String → ℕ
pins t x = pin_of_id t.template_id (holds_ref t) x

abbrev pub own : {W : Type 0} → String → KuasarSandbox W → ℕ
own x s = pins (tags_of s.restore) x

abbrev pub held : {W : Type 0} → String → Map (KuasarSandbox W) → ℕ
held x = total (own x)

-- The pool is valid and counts `n` references to the template `x`, where there is a pool.
abbrev pub PoolCounts : String → ℕ → Option TemplatePool → Type 0
PoolCounts x n none = Unit
PoolCounts x n (some p) = IsValid p × (count x p.in_use_count ≡ n)

-- A valid pool that counts for every template exactly the sandboxes that keep it.
abbrev pub IsBalanced : {W : Type 0} → KuasarSandboxer W → Type 0
IsBalanced st = (x : String) → PoolCounts x (held x st.sandboxes) st.template_pool

-- No id stands twice, and the pool's counts are right.
abbrev pub IsConsistent : {W : Type 0} → KuasarSandboxer W → Type 0
IsConsistent st = IsUnique st.sandboxes × IsBalanced st

-- What keeps an environment alive besides its lease.
abbrev pub env_pins : Tags → String → ℕ
env_pins t x =
    pin_of_id t.template_id
      (is_type environment t.template_snapshot_type && non_copy t.memory_restore_mode) x
