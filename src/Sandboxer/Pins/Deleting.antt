-- ===== src/Sandboxer/Pins/Deleting.antt =====
-- The deletion of a sandbox (vmm/sandbox/src/sandbox.rs) keeps the pool's counts in step with the
-- sandboxes.
use kuasar.Sandboxer.Pins.Requests.{replaced-IsConsistent}
use kuasar.Template.Pool.State.{TemplatePool}
use kuasar.Template.Pool.Validity.Run.{step-IsValid}
use kuasar.Template.Pool.Recovery.{cleanup_consumed}
use kuasar.Template.Pool.Step.{Op, step}
use kuasar.Sandboxer.Pins.Counts.{PoolCounts-deref}
use kuasar.Sandboxer.Pins.Releasing.{is_deref, release_of-recovered}
use kuasar.Sandboxer.Manage.{
  tear_down, delete, release_template, release_of, released, Release, keep_pool, deref_template,
  delete_consumed, delete_continuation, release_by,
}
use kuasar.Prelude.Steps.{then-Keeps, when-Keeps}
use kuasar.Prelude.{
  String, some, ◌≡◌, refl, arith, sym, ap, subst, Option-cases, inl, inr, ℕ, true, ◌+◌, none,
  Option, false,
}
use kuasar.Prelude.Exec.{Keeps, ok, err, Result}
use kuasar.Prelude.Map
use kuasar.Prelude.Map.{Map, delete-put, get-put_self}
use kuasar.Prelude.Totals.{IsUnique-delete, total-delete, total-delete_absent, IsUnique}
use kuasar.Sandbox.State.{KuasarSandbox, RestoreMetadata, SandboxError}
use kuasar.Sandbox.Tags.{Tags, Tagged, tags_of, stop-Tagged, on_vm-Tagged}
use kuasar.Sandboxer.Pins.{IsConsistent, PoolCounts, own, pin_of_id, held}
use kuasar.Sandboxer.State.{KuasarSandboxer, Setting}

module _ {W : Type 0} (setting : Setting W) where
  tear_down-Tagged : (t : Tags) → Keeps (Tagged t) (tear_down setting)
  unfolding tear_down
  tear_down-Tagged t = then-Keeps _ _ _ (stop-Tagged setting.host t true) (record {
    from = λ s p.
        (then-Keeps _ _ _ (when-Keeps _ _ _ (on_vm-Tagged t _))
            (then-Keeps _ _ _ (on_vm-Tagged t _) (on_vm-Tagged t _))).from
          s p;
  })

  released_by-counts :
      (r : Release) (x tid : String) (n : ℕ) (p : TemplatePool) (st : KuasarSandboxer W)
      → st.template_pool ≡ some p
      → PoolCounts x (n + pin_of_id (some tid) (is_deref r) x) (some p)
      → PoolCounts x n (release_by setting r tid p st).template_pool
  unfolding cleanup_consumed step
  released_by-counts keep_pool x tid n p st e c = rw e (c.0, omega (arith, c.1))
  released_by-counts deref_template x tid n p st e c = PoolCounts-deref x n setting.io tid p c
  released_by-counts delete_consumed x tid n p st e c =
      (step-IsValid setting.io (Op.cleanup_consumed tid) p c.0, ground arith)
  released_by-counts delete_continuation x tid n p st e c = rw e (c.0, omega (arith, c.1))

  -- The reference of a sandbox that was torn down goes, and the others stay counted.
  released-counts :
      (x : String) (s : KuasarSandbox W) (n : ℕ) (st : KuasarSandboxer W)
      → PoolCounts x (n + own x s) st.template_pool
      → PoolCounts x n (release_template setting s.restore.template_id s.restore st).template_pool
  unfolding release_template
  released-counts x s n st c = elim (Option-cases s.restore.template_id) [
    | inl e ↦
        rw (e, release_template)
          (subst (λ k. PoolCounts x k st.template_pool) (ground (arith, e)) c)
    | inr (tid, e) ↦ elim (Option-cases st.template_pool) [
      | inl e' ↦ ground arith
      | inr (p, e') ↦
          let c' = subst (PoolCounts x (n + own x s)) e' c in
          let agreed = (release_of-recovered s.restore).0 in
          rw (e, release_template)
            (rw e' (
              released_by-counts (release_of s.restore) x tid n p st e'
                (c'.0, ground (arith, c'.1, agreed, e))))
    ]
  ]

  sandboxes-release_template :
      (o : Option String) (r : RestoreMetadata) (st : KuasarSandboxer W)
      → (release_template setting o r st).sandboxes ≡ st.sandboxes
  unfolding release_template
  sandboxes-release_template none r st = refl
  sandboxes-release_template (some tid) r st = elim (Option-cases st.template_pool) [
    | inl e ↦ rw (e, release_template) refl
    | inr (p, e) ↦ rw (e, release_template) (kept (release_of r) p)
  ]
    where
      kept :
          (rel : Release) (p : TemplatePool)
          → (release_by setting rel tid p st).sandboxes ≡ st.sandboxes
      kept keep_pool p = refl
      kept deref_template p = refl
      kept delete_consumed p = refl
      kept delete_continuation p = refl

  removed-IsConsistent :
      (id : String) (s s' : KuasarSandbox W) (st : KuasarSandboxer W)
      → Map.get id st.sandboxes ≡ some s
      → Tagged (tags_of s.restore) s'
      → IsConsistent st
      → IsConsistent (released setting id s'.restore.template_id (ok tt, s') st).1
  removed-IsConsistent id s s' st e h c =
      let (u, b) = replaced-IsConsistent id s s' st e h c in
      let m = Map.put id s' st.sandboxes in
      let st' = record st { sandboxes = m } in
      let q = release_template setting s'.restore.template_id s'.restore st' in
      let same = sym (sandboxes-release_template s'.restore.template_id s'.restore st') in
      (
        subst (λ k. IsUnique (Map.delete id k)) same (IsUnique-delete id m u),
        λ x.
            subst (λ k. PoolCounts x (held x (Map.delete id k)) q.template_pool) same
              (released-counts x s' (held x (Map.delete id m)) st' (
                subst (λ n. PoolCounts x n st.template_pool)
                  (sym (total-delete (own x) id s' m u (get-put_self id s' st.sandboxes))) (b x))),
      )

  torn_down-IsConsistent :
      (id : String) (s : KuasarSandbox W) (st : KuasarSandboxer W)
      → Map.get id st.sandboxes ≡ some s
      → IsConsistent st
      → (r : Result SandboxError (Unit {0}) × KuasarSandbox W) → Tagged (tags_of s.restore) r.1
      → IsConsistent (released setting id s.restore.template_id r st).1
  torn_down-IsConsistent id s st e c (err x, s') h = replaced-IsConsistent id s s' st e h c
  torn_down-IsConsistent id s st e c (ok u, s') h =
      subst (λ o. IsConsistent (released setting id o (ok u, s') st).1) (ap (λ t. t.template_id) h)
        (removed-IsConsistent id s s' st e h c)

  pub delete-IsConsistent : (id : String) → Keeps IsConsistent (delete setting id)
  unfolding delete
  delete-IsConsistent id = record {
    from = λ st c. elim (Option-cases (Map.get id st.sandboxes)) [
      | inl e ↦
          let absent : Map.contains_key id st.sandboxes ≡ false =
            unfold Map.contains_key in ground (arith, e) in
          rw (e, delete)
            (
              IsUnique-delete id st.sandboxes c.0,
              λ x.
                  subst (λ n. PoolCounts x n st.template_pool)
                    (sym (total-delete_absent (own x) id st.sandboxes absent)) (c.1 x),
            )
      | inr (s, e) ↦
          rw (e, delete)
            (torn_down-IsConsistent id s st e c (tear_down setting s)
              ((tear_down-Tagged (tags_of s.restore)).from s refl))
    ];
  }
