-- ===== src/Sandboxer/Pins/Serving.antt =====
-- Sequences of requests to the sandboxer of vmm/sandbox/src/sandbox.rs other than starts.
use kuasar.Prelude.{ℕ, String, Bool, List, [], ◌∷◌, All}
use kuasar.Sandbox.State.{SandboxData}
use kuasar.Sandboxer.Manage.{create, delete, stop_sandbox, terminated, update}
use kuasar.Sandboxer.Pins.{IsConsistent}
use kuasar.Sandboxer.Pins.Deleting.{delete-IsConsistent}
use kuasar.Sandboxer.Pins.Requests.{
  create-IsConsistent, stop_sandbox-IsConsistent, terminated-IsConsistent, update-IsConsistent,
}
use kuasar.Sandboxer.Pins.Restoring.{HooksKeepTags}
use kuasar.Sandboxer.State.{KuasarSandboxer, Setting}

-- A request, or the end of a VM with its code and time.
pub data Served : Type 0 where
  creates : String → String → SandboxData → Served
  updates : String → SandboxData → Served
  stops : String → Bool → Served
  deletes : String → Served
  terminates : String → ℕ → ℕ → Served

module _ {W : Type 0} where
  unfoldable pub serve : Setting W → Served → KuasarSandboxer W → KuasarSandboxer W
  serve setting (creates id base_dir d) st = (create setting id base_dir d st).1
  serve setting (updates id d) st = (update setting id d st).1
  serve setting (stops id force) st = (stop_sandbox setting id force st).1
  serve setting (deletes id) st = (delete setting id st).1
  serve setting (terminates id code ts) st = (terminated setting id code ts st).1

  -- The surroundings of each request may differ.
  unfoldable pub serve_all : List (Setting W × Served) → KuasarSandboxer W → KuasarSandboxer W
  serve_all [] st = st
  serve_all ((setting, r) ∷ rs) st = serve_all rs (serve setting r st)

  serve-IsConsistent :
      (setting : Setting W) (r : Served) (st : KuasarSandboxer W)
      → HooksKeepTags setting.hooks
      → IsConsistent st
      → IsConsistent (serve setting r st)
  unfolding serve
  serve-IsConsistent setting (creates id base_dir d) st law c =
      (create-IsConsistent setting law id base_dir d).from st c
  serve-IsConsistent setting (updates id d) st law c = (update-IsConsistent setting id d).from st c
  serve-IsConsistent setting (stops id force) st law c =
      (stop_sandbox-IsConsistent setting law id force).from st c
  serve-IsConsistent setting (deletes id) st law c = (delete-IsConsistent setting id).from st c
  serve-IsConsistent setting (terminates id code ts) st law c =
      (terminated-IsConsistent setting id code ts).from st c

  abbrev pub HooksOf : List (Setting W × Served) → Type 0
  HooksOf rs = All (λ (setting, r). HooksKeepTags setting.hooks) rs

  -- From a state in which a valid pool counts for every template exactly the sandboxes that keep it,
  -- any sequence of creations, updates, stops and deletions of sandboxes, and of VMs that end, leads
  -- to such a state, whatever calls fail on the way; provided that the hooks leave the record of the
  -- restore alone.
  pub serve_all-IsConsistent :
      (rs : List (Setting W × Served)) (st : KuasarSandboxer W)
      → HooksOf rs
      → IsConsistent st
      → IsConsistent (serve_all rs st)
  unfolding serve_all
  serve_all-IsConsistent [] st law c = c
  serve_all-IsConsistent ((setting, r) ∷ rs) st law c =
      serve_all-IsConsistent rs (serve setting r st) law.1 (serve-IsConsistent setting r st law.0 c)
