-- ===== src/Sandboxer/Pins/Releasing.antt =====
-- The references that the deletion of a sandbox releases and that a recovery counts again
-- (vmm/sandbox/src/sandbox.rs).
use kuasar.Template.Pool.State.{TemplatePool}
use kuasar.Sandboxer.State.{KuasarSandboxer, Setting}
use kuasar.Prelude.{
  none, some, Option, Option-cases, inl, inr, ◌∙◌, subst, ◌+◌, String, Bool, true, false, [], ◌∷◌,
  ◌≡◌, refl, arith,
}
use kuasar.Prelude.Map.{Map}
use kuasar.Sandbox.State.{KuasarSandbox, RestoreMetadata}
use kuasar.Sandbox.Tags.{tags_of}
use kuasar.Sandboxer.Manage.{
  Release, deref_template, delete_consumed, delete_continuation, keep_pool, release_of,
}
use kuasar.Sandboxer.Recovery.{
  recover_all, id_list, is_pinned_ref, is_shared_ref, pinned_ids, shared_ids, recover, active_ids,
}
use kuasar.Sandboxer.Pins.{held, holds_ref, pins, TemplatePool, IsValid, IsBalanced}
use kuasar.Template.Pool.Recovery.{gc_orphaned_consumed}
use kuasar.Template.Pool.Refs.{rebuild_active_refs}
use kuasar.Template.Pool.Step.{Op, step}
use kuasar.Template.Pool.Validity.{IsValid}
use kuasar.Template.Pool.Validity.Run.{step-IsValid}
use kuasar.Template.Pool.Counting.{occurrences, occurrences-append, count-rebuild_active_refs}

abbrev pub IsPoolValid : Option TemplatePool → Type 0
IsPoolValid none = Unit
IsPoolValid (some p) = IsValid p

abbrev pub is_deref : Release → Bool
is_deref deref_template = true
is_deref keep_pool = false
is_deref delete_consumed = false
is_deref delete_continuation = false

-- The deletion of a sandbox drops a reference to its template exactly where a recovery would count
-- one, in one of its two lists and not in the other.
pub release_of-recovered :
    (r : RestoreMetadata)
    → (is_deref (release_of r) ≡ holds_ref (tags_of r))
      × ((x : String)
          → occurrences x (id_list r.template_id (is_shared_ref r))
              + occurrences x (id_list r.template_id (is_pinned_ref r))
            ≡ pins (tags_of r) x)
unfolding release_of
release_of-recovered r = (ground arith, λ x. ground arith)

module _ {W : Type 0} (x : String) where
  -- The two lists name every template as often as there are sandboxes that keep it.
  occurrences-held :
      (m : Map (KuasarSandbox W))
      → occurrences x (shared_ids m) + occurrences x (pinned_ids m) ≡ held x m
  unfolding shared_ids pinned_ids
  occurrences-held [] = refl
  occurrences-held ((id, s) ∷ m) = omega (
    arith,
    occurrences-held m,
    (release_of-recovered s.restore).1 x,
    occurrences-append x (id_list s.restore.template_id (is_shared_ref s.restore)) (shared_ids m),
    occurrences-append x (id_list s.restore.template_id (is_pinned_ref s.restore)) (pinned_ids m),
  )

-- After a recovery on a valid pool, the pool counts for every template exactly the recovered
-- sandboxes that keep it, whatever it counted before and whichever sandboxes could be recovered.
pub recover-IsBalanced :
    {W : Type 0} (setting : Setting W) (dumps : Map (KuasarSandbox W)) (st : KuasarSandboxer W)
    → IsPoolValid st.template_pool
    → IsBalanced (recover setting dumps st)
unfolding recover gc_orphaned_consumed step
recover-IsBalanced setting dumps st v x = elim (Option-cases st.template_pool) [
  | inl e ↦ rw (e, recover) tt
  | inr (p, e) ↦
      let m = recover_all setting dumps st.sandboxes in
      let refs = Op.rebuild_active_refs (shared_ids m) (pinned_ids m) in
      let v' = step-IsValid setting.io refs p (subst IsPoolValid e v) in
      let q = rebuild_active_refs (shared_ids m) (pinned_ids m) p in
      rw (e, recover)
        (
          step-IsValid setting.io (Op.gc_orphaned_consumed (active_ids m)) q v',
          count-rebuild_active_refs x (shared_ids m) (pinned_ids m) p ∙ occurrences-held x m,
        )
]
