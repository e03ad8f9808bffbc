-- ===== src/Template/Pool/Validity/Insert.antt =====
-- `add` keeps a pool valid.
use kuasar.Prelude.{
  true, false, none, String, ◌≡◌, false, inl, inr, arith, All-retain, Option-cases, Option, some,
  Bool-cases, Bool,
}
use kuasar.Prelude.Exec.{Keeps, bind-Keeps}
use kuasar.Prelude.Map
use kuasar.Prelude.Map.{Map}
use kuasar.Template.Disk.{Removal, removed, not_found, failed, Io, Subdir}
use kuasar.Template.Types.{PooledTemplate, continuation, same_type, TemplateKey}
use kuasar.Template.Pool.State.{
  PoolError, max_per_key_evict_failed, template_dir, remove_dir, all_templates, Action,
}
use kuasar.Template.Pool.Validity.{
  Filed, FiledQueue, IsValid, push_template-filed, retain_other_ids-filed,
}
use kuasar.Template.Pool.Add.{
  abandon, after_evict, drop_from_key, make_dir, make_room, oldest_candidate, evict_oldest,
  evict_for_watermark, make_key_room, insert_template, evict_from_key, eviction, kind_max_per_key,
  add,
}
use kuasar.Template.Pool.Refs.{notify}

make_dir-IsValid : (io : Io) (s : Subdir) (id : String) → Keeps IsValid (make_dir io s id)
make_dir-IsValid io s id = record { from = λ p v. ground arith }

evict_for_watermark-IsValid :
    (io : Io) (s : Subdir) (id : String) (t : PooledTemplate)
    → Keeps IsValid (evict_for_watermark io s id t)
unfolding evict_for_watermark
evict_for_watermark-IsValid io s id t = record {
  from = λ p v. ground (arith, retain_other_ids-filed t.id p.available);
}

evict_oldest-IsValid :
    (io : Io) (s : Subdir) (id : String) (o : Option (Option PooledTemplate))
    → Keeps IsValid (evict_oldest io s id o)
evict_oldest-IsValid io s id none = record { from = λ p v. v }
evict_oldest-IsValid io s id (some none) = record { from = λ p v. ground arith }
evict_oldest-IsValid io s id (some (some t)) = evict_for_watermark-IsValid io s id t

make_room-IsValid : (io : Io) (s : Subdir) (id : String) → Keeps IsValid (make_room io s id)
unfolding make_room
make_room-IsValid io s id = record {
  from = λ p v.
      let o = oldest_candidate p (all_templates p) none in
      ground (arith, (evict_oldest-IsValid io s id o).from p v);
}

drop_from_key-IsValid : (k : TemplateKey) (id : String) → Keeps IsValid (drop_from_key k id)
drop_from_key-IsValid k id = record {
  from = λ p v. elim (Option-cases (Map.get k.key p.available)) [
    | inl e ↦ rw (e, drop_from_key) v
    | inr (q, e) ↦
        rw (e, drop_from_key)
          (record {
            filed =
                Map.All-put FiledQueue k.key _ p.available
                  (All-retain (Filed k.key) _ q
                    (Map.All-get FiledQueue k.key p.available v.filed e))
                  v.filed;
            refills = v.refills;
            restores = v.restores;
            references = v.references;
          })
  ];
}

abandon-IsValid :
    (io : Io) (s : Subdir) (id : String) (e : PoolError) → Keeps IsValid (abandon io s id e)
abandon-IsValid io s id e = record { from = λ p v. ground arith }

after_evict-Keeps :
    (drop give_up : Action (Unit {0})) (r : Removal)
    → Keeps IsValid drop
    → Keeps IsValid give_up
    → Keeps IsValid (after_evict drop give_up r)
after_evict-Keeps drop give_up removed d g = d
after_evict-Keeps drop give_up not_found d g = g
after_evict-Keeps drop give_up failed d g = g

evict_from_key-IsValid :
    (io : Io) (s : Subdir) (id : String) (k : TemplateKey) (found : PooledTemplate × Bool)
    → Keeps IsValid (evict_from_key io s id k found)
unfolding evict_from_key
evict_from_key-IsValid io s id k (t, false) = record { from = λ p v. ground arith }
evict_from_key-IsValid io s id k (t, true) =
    bind-Keeps (template_dir t) _ (record { from = λ p v. ground arith })
      λ s'.
        bind-Keeps (remove_dir io s' t.id) _ (record { from = λ p v. ground arith })
          λ r.
            after_evict-Keeps _ _ r (drop_from_key-IsValid k t.id)
              (abandon-IsValid io s id max_per_key_evict_failed)

make_key_room-IsValid :
    (io : Io) (s : Subdir) (t : PooledTemplate) → Keeps IsValid (make_key_room io s t)
unfolding make_key_room
make_key_room-IsValid io s t = record {
  from = λ p v. elim (Option-cases (kind_max_per_key p t)) [
    | inl e ↦ rw (e, make_key_room) v
    | inr (limit, e) ↦ elim (Option-cases (eviction p t.key limit)) [
      | inl e' ↦ rw (e, e', make_key_room) v
      | inr (found, e') ↦
          rw (e, e', make_key_room) ((evict_from_key-IsValid io s t.id t.key found).from p v)
    ]
  ];
}

insert_template-IsValid :
    (io : Io) (s : Subdir) (t : PooledTemplate)
    → same_type t.snapshot_type continuation ≡ false
    → Keeps IsValid (insert_template io s t)
unfolding insert_template notify
insert_template-IsValid io s t c = record {
  from = λ p v. ground (arith, push_template-filed t p.available c v.filed);
}

pub add-IsValid : (io : Io) (t : PooledTemplate) → Keeps IsValid (add io t)
unfolding add
add-IsValid io t = elim (Bool-cases (same_type t.snapshot_type continuation)) [
  | inl c ↦ record { from = λ p v. ground arith }
  | inr c ↦
      bind-Keeps (template_dir t) _ (record { from = λ p v. ground arith })
        λ s. bind-Keeps (make_dir io s t.id) _ (make_dir-IsValid io s t.id) λ _.
          bind-Keeps (make_room io s t.id) _ (make_room-IsValid io s t.id) λ _.
            bind-Keeps (make_key_room io s t) _ (make_key_room-IsValid io s t)
              λ _. insert_template-IsValid io s t c
]
