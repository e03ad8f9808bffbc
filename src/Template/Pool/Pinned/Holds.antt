-- ===== src/Template/Pool/Pinned/Holds.antt =====
-- The entries and the directories of one template id, and the parts of the evicting methods that
-- leave them alone.
use kuasar.Prelude.{
  String, ◌≡◌, refl, ◌≢◌, ◌∙◌, not, Option, List, [], ◌∷◌, ◌++◌, ◌==◌, ==_iff, ==_ne, retain,
  retain-append, retain-retain, arith, Bool-cases, inl, inr, ap, true,
}
use mathlib.Core.List.{append-nil}
use kuasar.Prelude.Exec.{Keeps}
use kuasar.Prelude.Map
use kuasar.Prelude.Map.{Map, flat_values}
use kuasar.Template.Disk.{
  Io, Subdir, environment_dir, warmfork_dir, TemplateDir, dir_at, dir_at-remove_dir_all,
}
use kuasar.Template.Types.{PooledTemplate, SnapshotType}
use kuasar.Template.Pool.Oldest.{pinned}
use kuasar.Template.Pool.State.{
  TemplatePool, all_templates, remove_dir, subdir_of, or_default, push_template, retain_other_ids,
}

abbrev pub named : String → List PooledTemplate → List PooledTemplate
named x = retain (λ t. t.id == x)

pub record Holds (x : String) (ts : List PooledTemplate) (de dw : Option TemplateDir)
    (p : TemplatePool) : Type 0 where
  pub entries : named x (all_templates p) ≡ ts
  pub environment : dir_at environment_dir x p.disk ≡ de
  pub warmfork : dir_at warmfork_dir x p.disk ≡ dw
  pub pin : pinned p x ≡ true

module _ (x : String) where
  pub named-retain_ne :
      (id : String) (q : List PooledTemplate)
      → id ≢ x
      → named x (retain (λ t. not (t.id == id)) q) ≡ named x q
  named-retain_ne id q h =
      retain-retain _ _ q (λ t e. ground (arith, ==_iff t.id x, ==_iff t.id id))

  pub named-retain_other_ids :
      (id : String) (m : Map (List PooledTemplate))
      → id ≢ x
      → named x (flat_values (retain_other_ids id m)) ≡ named x (flat_values m)
  unfolding retain_other_ids
  named-retain_other_ids id [] h = refl
  named-retain_other_ids id ((k, q) ∷ m) h =
      rw
        (
          retain-append (λ t. t.id == x) (retain (λ t. not (t.id == id)) q),
          retain-append (λ t. t.id == x) q,
        )
        (cc (named-retain_ne id q h, named-retain_other_ids id m h))

  -- A queue that is replaced by one with the same entries of this id.
  pub named-put :
      (k : String) (q : List PooledTemplate) (m : Map (List PooledTemplate))
      → named x q ≡ named x (or_default (Map.get k m))
      → named x (flat_values (Map.put k q m)) ≡ named x (flat_values m)
  unfolding Map.get Map.put
  named-put k q [] h = rw (retain-append, h)
  named-put k q ((j, r) ∷ m) h = elim (Bool-cases (j == k)) [
    | inl e ↦
        rw (e, Map.put)
          (rw (retain-append (λ t. t.id == x) q, retain-append (λ t. t.id == x) r)
            (ap (λ ys. ys ++ named x (flat_values m)) (rw (e, Map.get) at h)))
    | inr e ↦
        rw (e, Map.put)
          (rw (retain-append (λ t. t.id == x) r (flat_values m), retain-append (λ t. t.id == x) r)
            (ap (λ ys. named x r ++ ys) (named-put k q m (rw (e, Map.get) at h))))
  ]

  pub named-push_template :
      (t : PooledTemplate) (m : Map (List PooledTemplate))
      → t.id ≢ x
      → named x (flat_values (push_template t m)) ≡ named x (flat_values m)
  unfolding push_template
  named-push_template t m h =
      named-put t.key.key _ m (rw (retain-append, ==_ne t.id x h) (append-nil _))

module _ (x : String) (ts : List PooledTemplate) (de dw : Option TemplateDir) where
  pub subdir_of-Holds : (k : SnapshotType) → Keeps (Holds x ts de dw) (subdir_of k)
  subdir_of-Holds k = record { from = λ p v. ground arith }

  pub remove_dir-Holds :
      (io : Io) (s : Subdir) (id : String) → id ≢ x → Keeps (Holds x ts de dw) (remove_dir io s id)
  remove_dir-Holds io s id h = record {
    from = λ p v. record {
      entries = v.entries;
      environment = dir_at-remove_dir_all s id p.disk environment_dir x h io ∙ v.environment;
      warmfork = dir_at-remove_dir_all s id p.disk warmfork_dir x h io ∙ v.warmfork;
      pin = v.pin;
    };
  }
