-- ===== src/Sandboxer/Pins/Requests.antt =====
-- The requests of vmm/sandbox/src/sandbox.rs that create and stop a sandbox, and the end of its VM, keep the pool's counts in step with the sandboxes.
use kuasar.Sandboxer.Pins.Restoring.{HooksKeepTags}
use kuasar.Sandboxer.Manage.{
  stop_sandbox, update, terminated, create, set_up, inserted, with_vm, new_sandbox,
}
use kuasar.Sandbox.Lifecycle.{vm_terminated}
use kuasar.Prelude.Steps.{ignore-Keeps, then-Keeps}
use kuasar.Prelude.{
  String, some, ◌≡◌, refl, arith, sym, ap, subst, Option-cases, inl, inr, Bool, ℕ, Bool-cases,
  false, not, ◌&&◌,
}
use kuasar.Prelude.Exec.{Keeps, ok, err, Result}
use kuasar.Prelude.Map
use kuasar.Prelude.Map.{Map, delete-put, get-put_self}
use kuasar.Prelude.Totals.{IsUnique-put, total-put, total-put_new}
use kuasar.Sandbox.State.{Action, KuasarSandbox, SandboxData, SandboxError, default_restore}
use kuasar.Sandbox.Tags.{
  Tags, Tagged, tags_of, stop-Tagged, dump-Tagged, destroy_network-Tagged, on_vm-Tagged,
}
use kuasar.Sandboxer.Pins.{IsConsistent, PoolCounts, pins, own}
use kuasar.Sandboxer.State.{KuasarSandboxer, on_sandbox, with_sandbox, Setting}

module _ {W : Type 0} where
  -- A sandbox is replaced by one that keeps the same template.
  pub replaced-IsConsistent :
      (id : String) (s s' : KuasarSandbox W) (st : KuasarSandboxer W)
      → Map.get id st.sandboxes ≡ some s
      → Tagged (tags_of s.restore) s'
      → IsConsistent st
      → IsConsistent (record st { sandboxes = Map.put id s' st.sandboxes })
  replaced-IsConsistent id s s' st e h (u, b) = (
    IsUnique-put id s' st.sandboxes u,
    λ x.
        let same = ap (λ t. pins t x) h in
        let moved = total-put (own x) id s s' st.sandboxes e in
        subst (λ n. PoolCounts x n st.template_pool) (sym (omega (arith, same, moved))) (b x),
  )

  with_sandbox-IsConsistent :
      (id : String) (m : Action W (Unit {0}))
      → ((t : Tags) → Keeps (Tagged t) m)
      → Keeps IsConsistent (with_sandbox id (on_sandbox m))
  unfolding with_sandbox on_sandbox
  with_sandbox-IsConsistent id m k = record {
    from = λ st c. elim (Option-cases (Map.get id st.sandboxes)) [
      | inl e ↦ rw (e, with_sandbox) c
      | inr (s, e) ↦
          rw (e, with_sandbox)
            (replaced-IsConsistent id s (m s).1 st e ((k (tags_of s.restore)).from s refl) c)
    ];
  }

module _ {W : Type 0} (setting : Setting W) where
  pub stop_sandbox-IsConsistent :
      HooksKeepTags setting.hooks
      → (id : String) (force : Bool) → Keeps IsConsistent (stop_sandbox setting id force)
  unfolding stop_sandbox
  stop_sandbox-IsConsistent law id force = record {
    from = λ st c. elim (Bool-cases (Map.contains_key id st.sandboxes)) [
      | inl e ↦
          rw (e, stop_sandbox)
            ((with_sandbox-IsConsistent id _ λ t. then-Keeps _ _ _ (law.pre_stop t) (
                then-Keeps _ _ _ (stop-Tagged setting.host t force)
                  (then-Keeps _ _ _ (law.post_stop t) (dump-Tagged setting.host t)))).from
              st c)
      | inr e ↦ rw (e, stop_sandbox) c
    ];
  }

  pub update-IsConsistent :
      (id : String) (d : SandboxData) → Keeps IsConsistent (update setting id d)
  unfolding update
  update-IsConsistent id d =
      with_sandbox-IsConsistent id _
        λ t. then-Keeps _ _ _ (record { from = λ s p. p }) (dump-Tagged setting.host t)

  pub terminated-IsConsistent :
      (id : String) (code ts : ℕ) → Keeps IsConsistent (terminated setting id code ts)
  unfolding terminated vm_terminated
  terminated-IsConsistent id code ts = with_sandbox-IsConsistent id _ λ t.
      then-Keeps _ _ _ (record { from = λ s p. p })
        (then-Keeps _ _ _ (record { from = λ s p. p })
          (then-Keeps _ _ _ (destroy_network-Tagged setting.host t)
            (ignore-Keeps _ _ (dump-Tagged setting.host t))))

  set_up-Tagged : HooksKeepTags setting.hooks → (t : Tags) → Keeps (Tagged t) (set_up setting)
  set_up-Tagged law t =
      then-Keeps _ _ _ (record { from = λ s p. (on_vm-Tagged t _).from s p })
        (then-Keeps _ _ _ (law.post_create t) (dump-Tagged setting.host t))

  made-IsConsistent :
      (id : String) (st : KuasarSandboxer W)
      → Map.contains_key id st.sandboxes ≡ false
      → IsConsistent st
      → (r : Result SandboxError (Unit {0}) × KuasarSandbox W)
      → Tagged (tags_of default_restore) r.1
      → IsConsistent (inserted setting id r st).1
  made-IsConsistent id st e c (err x, s) h = c
  made-IsConsistent id st e (u, b) (ok a, s) h = (
    IsUnique-put id s st.sandboxes u,
    λ x.
        let new = total-put_new (own x) id s st.sandboxes e in
        let none_kept = ap (λ t. pins t x) h in
        subst (λ n. PoolCounts x n st.template_pool) (sym (omega (arith, new, none_kept))) (b x),
  )

  pub create-IsConsistent :
      HooksKeepTags setting.hooks
      → (id base_dir : String) (d : SandboxData) → Keeps IsConsistent (create setting id base_dir d)
  unfolding create
  create-IsConsistent law id base_dir d = record {
    from = λ st c. elim (Bool-cases (Map.contains_key id st.sandboxes)) [
      | inl e ↦ rw (e, create) c
      | inr e ↦ elim (Bool-cases (not setting.host.cgroup2 && setting.cgroup_fails id)) [
        | inl e' ↦ ground arith
        | inr e' ↦ rw (e, create) (rw e' (made st c e (setting.create_vm id d)))
      ]
    ];
  }
    where
      made :
          (st : KuasarSandboxer W)
          → IsConsistent st
          → Map.contains_key id st.sandboxes ≡ false
          → (r : Result SandboxError W) → IsConsistent (with_vm setting id base_dir d r st).1
      made st c e (err x) = c
      made st c e (ok vm) =
          let s = new_sandbox setting id base_dir d vm in
          made-IsConsistent id st e c (set_up setting s)
            ((set_up-Tagged law (tags_of default_restore)).from s refl)
