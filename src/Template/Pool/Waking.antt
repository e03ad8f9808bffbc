-- ===== src/Template/Pool/Waking.antt =====
-- A template that is added to a pool (vmm/sandbox/src/template/pool.rs) is the newest of its key, and
-- whoever waits is woken.
use kuasar.Prelude.{
  ℕ, ◌+◌, ◌%◌, ◌^◌, ◌≡◌, refl, ap, ◌∙◌, subst, String, Bool, true, false, Option, none, some, List,
  arith, Option-cases, Bool-cases, inl, inr, ==_refl, push_back, back-push_back,
}
use kuasar.Prelude.Exec.{Result, ok, err, Keeps, and_then}
use kuasar.Prelude.Map
use kuasar.Prelude.Map.{get-put}
use kuasar.Prelude.Steps.{Ends}
use kuasar.Template.Disk.{Io, Subdir}
use kuasar.Template.Pool.Acquire.{latest}
use kuasar.Template.Pool.Add.{
  add, save, evict_for_watermark, evict_from_key, evict_oldest, eviction, insert_template,
  kind_max_per_key, make_dir, make_key_room, make_room, oldest_candidate,
}
use kuasar.Template.Pool.Refs.{notify}
use kuasar.Template.Pool.State.{
  Action, PoolError, TemplatePool, all_templates, push_template, template_dir, queue_or_default,
}
use kuasar.Template.Types.{PooledTemplate, TemplateKey}

-- The version of the watch channel.
abbrev Version : ℕ → TemplatePool → Type 0
Version v p = p.template_ready ≡ v

module _ (v : ℕ) where
  subdir_of-Version : (t : PooledTemplate) → Keeps (Version v) (template_dir t)
  subdir_of-Version t = record { from = λ p h. ground arith }

  evict_for_watermark-Version :
      (io : Io) (s : Subdir) (id : String) (t : PooledTemplate)
      → Keeps (Version v) (evict_for_watermark io s id t)
  unfolding evict_for_watermark
  evict_for_watermark-Version io s id t = record { from = λ p h. ground arith }

  evict_oldest-Version :
      (io : Io) (s : Subdir) (id : String) (o : Option (Option PooledTemplate))
      → Keeps (Version v) (evict_oldest io s id o)
  evict_oldest-Version io s id none = record { from = λ p h. h }
  evict_oldest-Version io s id (some none) = record { from = λ p h. h }
  evict_oldest-Version io s id (some (some t)) = evict_for_watermark-Version io s id t

  make_room-Version : (io : Io) (s : Subdir) (id : String) → Keeps (Version v) (make_room io s id)
  unfolding make_room
  make_room-Version io s id = record {
    from = λ p h. ground (
      arith,
      (evict_oldest-Version io s id (oldest_candidate p (all_templates p) none)).from p h,
    );
  }

  evict_from_key-Version :
      (io : Io) (s : Subdir) (id : String) (k : TemplateKey) (t : PooledTemplate) (b : Bool)
      → Keeps (Version v) (evict_from_key io s id k (t, b))
  unfolding evict_from_key
  evict_from_key-Version io s id k t false = record { from = λ p h. ground arith }
  evict_from_key-Version io s id k t true = record { from = λ p h. ground arith }

  make_key_room-Version :
      (io : Io) (s : Subdir) (t : PooledTemplate) → Keeps (Version v) (make_key_room io s t)
  unfolding make_key_room
  make_key_room-Version io s t = record {
    from = λ p h. elim (Option-cases (kind_max_per_key p t)) [
      | inl e ↦ rw (e, make_key_room) h
      | inr (limit, e) ↦ elim (Option-cases (eviction p t.key limit)) [
        | inl e' ↦ rw (e, e', make_key_room) h
        | inr ((oldest, b), e') ↦
            rw (e, e', make_key_room) ((evict_from_key-Version io s t.id t.key oldest b).from p h)
      ]
    ];
  }

-- The pool after a template was inserted: it is the newest of its key, and the version is the next one.
pub record Arrives (t : PooledTemplate) (v : ℕ) (q : TemplatePool) : Type 0 where
  pub newest : latest t.key q ≡ some t
  pub version : q.template_ready ≡ (v + 1) % 2 ^ 64

pushed :
    (t : PooledTemplate) (m : Map.Map (List PooledTemplate))
    → Map.get t.key.key (push_template t m) ≡ some (push_back (queue_or_default t.key.key m) t)
unfolding push_template
pushed t m =
    get-put t.key.key t.key.key (push_back (queue_or_default t.key.key m) t) m
    ∙ ground (arith, ==_refl t.key.key)

insert_template-Arrives :
    (io : Io) (s : Subdir) (t : PooledTemplate) (v : ℕ) (p : TemplatePool)
    → Version v p
    → Ends (λ a q. Arrives t v q) (λ q. Unit {0}) (insert_template io s t p)
unfolding insert_template notify latest
insert_template-Arrives io s t v p h = elim (Bool-cases (save io s t p.disk).0) [
  | inl e ↦
      rw (e, insert_template)
        (record {
          newest =
              rw (pushed t p.available, latest)
                (back-push_back (queue_or_default t.key.key p.available) t);
          version = ap (λ n. (n + 1) % 2 ^ 64) h;
        })
  | inr e ↦ rw (e, insert_template) tt
]

-- What a step answers, and an action after it.
after-Ends :
    {A : Type 0} (t : PooledTemplate) (v : ℕ) (r : Result PoolError A × TemplatePool)
    (f : A → Action (Unit {0}))
    → Version v r.1
    → ((a : A) (p : TemplatePool)
        → Version v p
        → Ends (λ b q. Arrives t v q) (λ q. Unit {0}) (f a p))
    → Ends (λ b q. Arrives t v q) (λ q. Unit {0}) (and_then r f)
after-Ends t v (ok a, p) f h k = k a p h
after-Ends t v (err e, p) f h k = tt

add-Ends :
    (io : Io) (t : PooledTemplate) (p : TemplatePool)
    → Ends (λ a q. Arrives t p.template_ready q) (λ q. Unit {0}) (add io t p)
unfolding add
add-Ends io t p =
    let v = p.template_ready in
    after-Ends t v (template_dir t p) _ ((subdir_of-Version v t).from p refl) λ s p1 h1.
      after-Ends t v (make_dir io s t.id p1) _ (ground (arith, h1)) λ _ p2 h2.
        after-Ends t v (make_room io s t.id p2) _ ((make_room-Version v io s t.id).from p2 h2)
          λ _ p3 h3.
            after-Ends t v (make_key_room io s t p3) _ ((make_key_room-Version v io s t).from p3 h3)
              λ _ p4 h4. insert_template-Arrives io s t v p4 h4

-- A call of `add` that succeeds.
pub add-Arrives :
    (io : Io) (t : PooledTemplate) (p : TemplatePool) {q : TemplatePool}
    → add io t p ≡ (ok tt, q)
    → Arrives t p.template_ready q
add-Arrives io t p {q} e =
    subst (Ends (λ a q. Arrives t p.template_ready q) (λ q. Unit {0})) e (add-Ends io t p)
