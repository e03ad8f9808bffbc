-- ===== src/Template/Pool/Pinned/Insert.antt =====
-- `add` spares what is pinned: the case of the eviction theorem with the most steps.
use kuasar.Prelude.{
  String, ◌≡◌, refl, ◌≢◌, ◌∙◌, Bool, true, false, Option, none, some, List, arith, ℕ, Option-cases,
  inl, inr, ==_iff,
}
use kuasar.Prelude.Exec.{fail, Keeps, bind-Keeps}
use kuasar.Prelude.Map
use kuasar.Template.Types.{PooledTemplate, TemplateKey}
use kuasar.Template.Disk.{
  Io, Subdir, Disk, environment_dir, warmfork_dir, TemplateDir, Removal, removed, not_found, failed,
  dir_at, dir_at-write_dir, dir_at-create_dir_all,
}
use kuasar.Template.Pool.Oldest.{Chosen}
use kuasar.Template.Pool.State.{
  TemplatePool, Action, PoolError, all_templates, template_dir, remove_dir, watermark_exceeded,
  watermark_evict_failed, max_per_key_exceeded, max_per_key_evict_failed,
}
use kuasar.Template.Pool.Refs.{notify}
use kuasar.Template.Pool.Add.{
  add, make_dir, abandon, after_evict, drop_everywhere, evict_for_watermark, evict_oldest,
  make_room, oldest_candidate, drop_from_key, evict_from_key, eviction, kind_max_per_key,
  make_key_room, save, insert_template, can_evict,
}
use kuasar.Template.Pool.Pinned.Holds.{
  Holds, named-retain_other_ids, named-put, named-push_template, named-retain_ne, subdir_of-Holds,
  remove_dir-Holds,
}
use kuasar.Template.Pool.Pinned.Candidates.{oldest_candidate-ne}

eviction-can_evict :
    (p : TemplatePool) (k : TemplateKey) (limit : ℕ) (oldest : PooledTemplate) (b : Bool)
    → eviction p k limit ≡ some (oldest, b)
    → b ≡ can_evict p oldest
unfolding eviction
eviction-can_evict p k limit oldest b e = elim (Option-cases (Map.get k.key p.available)) [
  | inl m ↦ absurd (ground arith)
  | inr (q, m) ↦ ground arith
]

module _ (x : String) (ts : List PooledTemplate) (de dw : Option TemplateDir) where
  make_dir-Holds :
      (io : Io) (s : Subdir) (id : String) → id ≢ x → Keeps (Holds x ts de dw) (make_dir io s id)
  make_dir-Holds io s id h = record {
    from = λ p v. ground (
      arith,
      dir_at-create_dir_all s id p.disk environment_dir x h io,
      dir_at-create_dir_all s id p.disk warmfork_dir x h io,
    );
  }

  abandon-Holds :
      (io : Io) (s : Subdir) (id : String) (e : PoolError)
      → id ≢ x
      → Keeps (Holds x ts de dw) (abandon io s id e)
  abandon-Holds io s id e h =
      bind-Keeps (remove_dir io s id) (λ _. fail e) (remove_dir-Holds x ts de dw io s id h)
        λ r. record { from = λ p v. v }

  after_evict-Holds :
      (drop give_up : Action (Unit {0})) (r : Removal)
      → Keeps (Holds x ts de dw) drop
      → Keeps (Holds x ts de dw) give_up
      → Keeps (Holds x ts de dw) (after_evict drop give_up r)
  after_evict-Holds drop give_up removed d g = d
  after_evict-Holds drop give_up not_found d g = g
  after_evict-Holds drop give_up failed d g = g

  drop_everywhere-Holds : (id : String) → id ≢ x → Keeps (Holds x ts de dw) (drop_everywhere id)
  drop_everywhere-Holds id h = record {
    from = λ p v. ground (arith, named-retain_other_ids x id p.available h);
  }

  evict_for_watermark-Holds :
      (io : Io) (s : Subdir) (id : String) (t : PooledTemplate)
      → id ≢ x
      → t.id ≢ x
      → Keeps (Holds x ts de dw) (evict_for_watermark io s id t)
  unfolding evict_for_watermark
  evict_for_watermark-Holds io s id t h ht =
      bind-Keeps (template_dir t) _ (subdir_of-Holds x ts de dw t.snapshot_type) λ s'.
        bind-Keeps (remove_dir io s' t.id) _ (remove_dir-Holds x ts de dw io s' t.id ht) λ r.
          after_evict-Holds _ _ r (drop_everywhere-Holds t.id ht)
            (abandon-Holds io s id watermark_evict_failed h)

  evict_oldest-Holds :
      (io : Io) (s : Subdir) (id : String) (o : Option (Option PooledTemplate))
      → id ≢ x
      → Chosen (λ t. t.id ≢ x) o
      → Keeps (Holds x ts de dw) (evict_oldest io s id o)
  evict_oldest-Holds io s id none h c = record { from = λ p v. v }
  evict_oldest-Holds io s id (some none) h c = abandon-Holds io s id watermark_exceeded h
  evict_oldest-Holds io s id (some (some t)) h c = evict_for_watermark-Holds io s id t h c

  make_room-Holds :
      (io : Io) (s : Subdir) (id : String) → id ≢ x → Keeps (Holds x ts de dw) (make_room io s id)
  unfolding make_room
  make_room-Holds io s id h = record {
    from = λ p v.
        let o = oldest_candidate p (all_templates p) none in
        let c = oldest_candidate-ne p x (all_templates p) v.pin in
        ground (arith, (evict_oldest-Holds io s id o h c).from p v);
  }

  drop_from_key-Holds :
      (k : TemplateKey) (id : String) → id ≢ x → Keeps (Holds x ts de dw) (drop_from_key k id)
  drop_from_key-Holds k id h = record {
    from = λ p v. elim (Option-cases (Map.get k.key p.available)) [
      | inl e ↦ rw (e, drop_from_key) v
      | inr (q, e) ↦
          rw (e, drop_from_key)
            (record {
              entries =
                  named-put x k.key _ p.available (rw e (named-retain_ne x id q h)) ∙ v.entries;
              environment = v.environment;
              warmfork = v.warmfork;
              pin = v.pin;
            })
    ];
  }

  evict_from_key-Holds :
      (io : Io) (s : Subdir) (id : String) (k : TemplateKey) (t : PooledTemplate) (b : Bool)
      → id ≢ x
      → (b ≡ true → t.id ≢ x)
      → Keeps (Holds x ts de dw) (evict_from_key io s id k (t, b))
  unfolding evict_from_key
  evict_from_key-Holds io s id k t false h ht = abandon-Holds io s id max_per_key_exceeded h
  evict_from_key-Holds io s id k t true h ht =
      bind-Keeps (template_dir t) _ (subdir_of-Holds x ts de dw t.snapshot_type) λ s'.
        bind-Keeps (remove_dir io s' t.id) _ (remove_dir-Holds x ts de dw io s' t.id (ht refl)) λ r.
          after_evict-Holds _ _ r (drop_from_key-Holds k t.id (ht refl))
            (abandon-Holds io s id max_per_key_evict_failed h)

  make_key_room-Holds :
      (io : Io) (s : Subdir) (t : PooledTemplate)
      → t.id ≢ x
      → Keeps (Holds x ts de dw) (make_key_room io s t)
  unfolding make_key_room
  make_key_room-Holds io s t h = record {
    from = λ p v. elim (Option-cases (kind_max_per_key p t)) [
      | inl e ↦ rw (e, make_key_room) v
      | inr (limit, e) ↦ elim (Option-cases (eviction p t.key limit)) [
        | inl e' ↦ rw (e, e', make_key_room) v
        | inr ((oldest, b), e') ↦
            rw (e, e', make_key_room)
              ((evict_from_key-Holds io s t.id t.key oldest b h (λ c same.
                  ground (arith, eviction-can_evict p t.key limit oldest b e', v.pin))).from
                p v)
      ]
    ];
  }

  dir_at-save :
      (io : Io) (s : Subdir) (t : PooledTemplate) (d : Disk) (s' : Subdir)
      → t.id ≢ x
      → dir_at s' x (save io s t d).1 ≡ dir_at s' x d
  unfolding save
  dir_at-save io s t d s' h = elim (Option-cases (dir_at s t.id d)) [
    | inl e ↦ ground arith
    | inr (dir, e) ↦
        ground
          (arith, ==_iff t.id x, dir_at-write_dir s t.id (record dir { saved = some t }) d s' x)
  ]

  insert_template-Holds :
      (io : Io) (s : Subdir) (t : PooledTemplate)
      → t.id ≢ x
      → Keeps (Holds x ts de dw) (insert_template io s t)
  unfolding insert_template notify
  insert_template-Holds io s t h = record {
    from = λ p v. ground (
      arith,
      named-push_template x t p.available h,
      dir_at-save io s t p.disk environment_dir h,
      dir_at-save io s t p.disk warmfork_dir h,
    );
  }

  pub add-Holds : (io : Io) (t : PooledTemplate) → t.id ≢ x → Keeps (Holds x ts de dw) (add io t)
  unfolding add
  add-Holds io t h = bind-Keeps (template_dir t) _ (subdir_of-Holds x ts de dw t.snapshot_type) λ s.
      bind-Keeps (make_dir io s t.id) _ (make_dir-Holds io s t.id h) λ _.
        bind-Keeps (make_room io s t.id) _ (make_room-Holds io s t.id h) λ _.
          bind-Keeps (make_key_room io s t) _ (make_key_room-Holds io s t h)
            λ _. insert_template-Holds io s t h
