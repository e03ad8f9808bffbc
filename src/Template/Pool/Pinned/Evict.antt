-- ===== src/Template/Pool/Pinned/Evict.antt =====
-- The theorem that evictions spare what is pinned, method by method.
use kuasar.Prelude.{
  find-test, String, ◌≡◌, ◌≢◌, true, Option, List, [], ◌∷◌, arith, All, ℕ, find, Option-cases,
  Bool-cases, inl, inr, take, length, retain, ◌-◌, ◌==◌, ==_iff,
}
use kuasar.Prelude.Exec.{Keeps, bind-Keeps, ◌>>=◌}
use kuasar.Prelude.Sort.{sort_by_key}
use kuasar.Template.Types.{PooledTemplate, SnapshotType}
use kuasar.Template.Disk.{Io, TemplateDir, Removal, removed, not_found, failed}
use kuasar.Template.Pool.Oldest.{pinned}
use kuasar.Template.Pool.State.{TemplatePool, all_templates, total_depth, template_dir, remove_dir}
use kuasar.Template.Pool.Gc.{
  gc_candidates, kind_evictable, remove_candidate, remove_candidates, gc_if_needed, evict_by_kind,
  remove_by_id, after_removal, after_removal_by_id,
}
use kuasar.Template.Pool.Pinned.Holds.{
  Holds, named-retain_other_ids, subdir_of-Holds, remove_dir-Holds,
}
use kuasar.Template.Pool.Pinned.Candidates.{kind_pinned, gc_candidates-ne, kind_candidates-ne}

module _ (x : String) (ts : List PooledTemplate) (de dw : Option TemplateDir) where
  after_removal-Holds :
      (t : PooledTemplate) (r : Removal) → t.id ≢ x → Keeps (Holds x ts de dw) (after_removal t r)
  after_removal-Holds t failed h = record { from = λ p v. v }
  after_removal-Holds t not_found h = record {
    from = λ p v. ground (arith, named-retain_other_ids x t.id p.available h);
  }
  after_removal-Holds t removed h = record {
    from = λ p v. ground (arith, named-retain_other_ids x t.id p.available h);
  }

  after_removal_by_id-Holds :
      (id : String) (r : Removal) → id ≢ x → Keeps (Holds x ts de dw) (after_removal_by_id id r)
  after_removal_by_id-Holds id failed h = record { from = λ p v. v }
  after_removal_by_id-Holds id not_found h = record {
    from = λ p v. ground (arith, named-retain_other_ids x id p.available h);
  }
  after_removal_by_id-Holds id removed h = record {
    from = λ p v. ground (arith, named-retain_other_ids x id p.available h);
  }

  remove_candidate-Holds :
      (io : Io) (t : PooledTemplate) → t.id ≢ x → Keeps (Holds x ts de dw) (remove_candidate io t)
  unfolding remove_candidate
  remove_candidate-Holds io t h =
      bind-Keeps (template_dir t) _ (subdir_of-Holds x ts de dw t.snapshot_type) λ s.
        bind-Keeps (remove_dir io s t.id) _ (remove_dir-Holds x ts de dw io s t.id h)
          λ r. after_removal-Holds t r h

  remove_candidates-Holds :
      (io : Io) (cs : List PooledTemplate) (n : ℕ)
      → All (λ t. t.id ≢ x) cs
      → Keeps (Holds x ts de dw) (remove_candidates io cs n)
  unfolding remove_candidates
  remove_candidates-Holds io [] n h = record { from = λ p v. v }
  remove_candidates-Holds io (t ∷ cs) n h =
      bind-Keeps (remove_candidate io t) _ (remove_candidate-Holds io t h.0)
        λ done. remove_candidates-Holds io cs _ h.1

  pub gc_if_needed-Holds : (io : Io) → Keeps (Holds x ts de dw) (gc_if_needed io)
  unfolding gc_if_needed
  gc_if_needed-Holds io = record {
    from = λ p v.
        let n = total_depth p - p.gc_watermark in
        let spared = gc_candidates-ne p x n v.pin in
        ground (arith, (remove_candidates-Holds io (take n (gc_candidates p)) 0 spared).from p v);
  }

  pub evict_by_kind-Holds :
      (io : Io) (kind : SnapshotType) (n : ℕ) (p : TemplatePool)
      → kind_pinned p kind x ≡ true
      → Holds x ts de dw p
      → Holds x ts de dw (evict_by_kind io kind n p).1
  unfolding evict_by_kind
  evict_by_kind-Holds io kind n p pin v =
      let found = retain (kind_evictable p kind) (all_templates p) in
      let m = length found - n in
      let cs = take m (sort_by_key (λ t. t.created_at_secs) found) in
      let spared = kind_candidates-ne p x kind m pin in
      ground (arith, (remove_candidates-Holds io cs 0 spared).from p v)

  remove_found-Holds :
      (io : Io) (id : String) (t : PooledTemplate)
      → id ≢ x
      → t.id ≡ id
      → Keeps
          (Holds x ts de dw)
          (do s ← template_dir t; r ← remove_dir io s t.id; after_removal_by_id id r)
  remove_found-Holds io id t h e =
      bind-Keeps (template_dir t) _ (subdir_of-Holds x ts de dw t.snapshot_type) λ s.
        bind-Keeps (remove_dir io s t.id) _ (remove_dir-Holds x ts de dw io s t.id (rw e h))
          λ r. after_removal_by_id-Holds id r h

  pub remove_by_id-Holds :
      (io : Io) (id : String) (kind : SnapshotType)
      → Keeps (Holds x ts de dw) (remove_by_id io id kind)
  unfolding remove_by_id
  remove_by_id-Holds io id kind = record {
    from = λ p v. elim (Option-cases (find (λ t. t.id == id) (all_templates p))) [
      | inl e ↦ rw (e, remove_by_id) v
      | inr (t, e) ↦
          let same = (==_iff t.id id).0 (find-test _ (all_templates p) e) in
          elim (Bool-cases (pinned p t.id)) [
            | inl pin ↦ rw (e, remove_by_id) (ground arith)
            | inr free ↦
                let ne : id ≢ x = λ q. ground (arith, v.pin) in
                rw (e, remove_by_id) (ground (arith, (remove_found-Holds io id t ne same).from p v))
          ]
    ];
  }
