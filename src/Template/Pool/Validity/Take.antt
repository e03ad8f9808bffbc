-- ===== src/Template/Pool/Validity/Take.antt =====
-- The methods that hand templates out keep a pool valid.
use kuasar.Prelude.{
  none, String, List, [], ◌∷◌, ◌==◌, inl, inr, arith, All, Option-cases, Option, some, Bool-cases,
  back, but_back, All-but_back,
}
use kuasar.Prelude.Exec.{Keeps}
use kuasar.Template.Pool.Acquire.{
  keep_head, keep_entry, pin_restore, pin_ref, by_key, by_id, peek_latest_for_restore,
  peek_with_ref, peek_by_id_for_restore, peek_by_id_with_ref, latest, get_template,
  acquire_for_restore, acquire_by_id_for_restore, consume, release, acquire, pop_back, pop_queue,
  remove_first, take_by_id, acquire_by_id,
}
use kuasar.Prelude.Map
use kuasar.Prelude.Map.{Map}
use kuasar.Template.Disk.{Io}
use kuasar.Template.Types.{
  environment, warm_fork, PooledTemplate, SnapshotType, continuation, TemplateKey,
}
use kuasar.Template.Pool.State.{TemplatePool}
use kuasar.Template.Pool.Validity.{
  Filed, FiledQueue, IsValid, push_template-filed, increment-IsPositive,
}

pub consume-IsValid : (io : Io) (t : PooledTemplate) → Keeps IsValid (consume io t)
unfolding consume
consume-IsValid io t = record { from = λ p v. ground (arith, push_template-filed t p.available) }

pub release-IsValid : (io : Io) (t : PooledTemplate) → Keeps IsValid (release io t)
unfolding release
release-IsValid io t = record { from = λ p v. ground (arith, push_template-filed t p.available) }

-- What is left of the queues when a template is taken out.
abbrev RestFiled : Option (PooledTemplate × Map (List PooledTemplate)) → Type 0
RestFiled none = Unit
RestFiled (some (t, m)) = All FiledQueue m

abbrev RestAll {κ} :
    (PooledTemplate → Type κ) → Option (PooledTemplate × List PooledTemplate) → Type κ
RestAll P none = Unit
RestAll P (some (t, q)) = All P q

pop_queue-filed :
    (k : String) (q : List PooledTemplate) (m : Map (List PooledTemplate))
    (o : Option PooledTemplate)
    → FiledQueue (k, q)
    → All FiledQueue m
    → RestFiled (pop_queue k q m o)
pop_queue-filed k q m none hq h = tt
pop_queue-filed k q m (some t) hq h =
    Map.All-put FiledQueue k (but_back q) m (All-but_back (Filed k) q hq) h

pop_back-filed :
    (k : String) (m : Map (List PooledTemplate)) → All FiledQueue m → RestFiled (pop_back k m)
unfolding pop_back
pop_back-filed k m h = elim (Option-cases (Map.get k m)) [
  | inl miss ↦ rw (miss, pop_back) tt
  | inr (q, hit) ↦
      rw (hit, pop_back) (pop_queue-filed k q m (back q) (Map.All-get FiledQueue k m h hit) h)
]

keep_head-All {κ} :
    (P : PooledTemplate → Type κ) (x : PooledTemplate)
    (o : Option (PooledTemplate × List PooledTemplate))
    → P x
    → RestAll P o
    → RestAll P (keep_head x o)
keep_head-All P x none hx h = tt
keep_head-All P x (some (t, q)) hx h = (hx, h)

remove_first-All {κ} :
    (P : PooledTemplate → Type κ) (id : String) (q : List PooledTemplate)
    → All P q
    → RestAll P (remove_first id q)
unfolding remove_first
remove_first-All P id [] h = tt
remove_first-All P id (x ∷ q) h = elim (Bool-cases (x.id == id)) [
  | inl hit ↦ rw (hit, remove_first) h.1
  | inr miss ↦ rw (miss, remove_first) (keep_head-All P x _ h.0 (remove_first-All P id q h.1))
]

keep_entry-Filed :
    (k : String) (q : List PooledTemplate) (m : Map (List PooledTemplate))
    (o : Option (PooledTemplate × List PooledTemplate))
    (rest : Option (PooledTemplate × Map (List PooledTemplate)))
    → FiledQueue (k, q)
    → All FiledQueue m
    → RestAll (Filed k) o
    → RestFiled rest
    → RestFiled (keep_entry k q m o rest)
keep_entry-Filed k q m none none hq h ho hr = tt
keep_entry-Filed k q m none (some (t, m')) hq h ho hr = (hq, hr)
keep_entry-Filed k q m (some (t, q')) rest hq h ho hr = (ho, h)

take_by_id-filed :
    (id : String) (m : Map (List PooledTemplate)) → All FiledQueue m → RestFiled (take_by_id id m)
unfolding take_by_id
take_by_id-filed id [] h = tt
take_by_id-filed id ((k, q) ∷ m) h =
    keep_entry-Filed k q m _ _ h.0 h.1 (remove_first-All (Filed k) id q h.0)
      (take_by_id-filed id m h.1)

module _ (p : TemplatePool) (v : IsValid p) where
  with_available :
      {m : Map (List PooledTemplate)} → All FiledQueue m → IsValid (record p { available = m })
  with_available h = record {
    filed = h;
    refills = v.refills;
    restores = v.restores;
    references = v.references;
  }

pub acquire-IsValid : (io : Io) (k : TemplateKey) → Keeps IsValid (acquire io k)
unfolding acquire
acquire-IsValid io k = record {
  from = λ p v. elim (Option-cases (pop_back k.key p.available)) [
    | inl e ↦ rw (e, acquire) v
    | inr ((t, m), e) ↦
        rw (e, acquire)
          ((consume-IsValid io t).from _
            (with_available p v (rw e at (pop_back-filed k.key p.available v.filed))))
  ];
}

pub acquire_by_id-IsValid : (io : Io) (id : String) → Keeps IsValid (acquire_by_id io id)
unfolding acquire_by_id
acquire_by_id-IsValid io id = record {
  from = λ p v. elim (Option-cases (take_by_id id p.available)) [
    | inl e ↦ rw (e, acquire_by_id) v
    | inr ((t, m), e) ↦
        rw (e, acquire_by_id)
          ((consume-IsValid io t).from _
            (with_available p v (rw e at (take_by_id-filed id p.available v.filed))))
  ];
}

pub pin_restore-IsValid : (o : Option PooledTemplate) → Keeps IsValid (pin_restore o)
pin_restore-IsValid none = record { from = λ p v. v }
pin_restore-IsValid (some t) = record {
  from = λ p v. ground (arith, increment-IsPositive t.id p.in_flight_restores v.restores);
}

pub pin_ref-IsValid : (o : Option PooledTemplate) → Keeps IsValid (pin_ref o)
pin_ref-IsValid none = record { from = λ p v. v }
pin_ref-IsValid (some t) = record {
  from = λ p v. ground (arith, increment-IsPositive t.id p.in_use_count v.references);
}

pub by_key-IsValid : (io : Io) (k : TemplateKey) (s : SnapshotType) → Keeps IsValid (by_key io k s)
unfolding peek_latest_for_restore peek_with_ref
by_key-IsValid io k environment = record {
  from = λ p v. (pin_restore-IsValid (latest k p)).from p v;
}
by_key-IsValid io k warm_fork = record {
  from = λ p v.
      ground (arith, (pin_ref-IsValid (latest k p)).from p v, (acquire-IsValid io k).from p v);
}
by_key-IsValid io k continuation = record { from = λ p v. v }

pub by_id-IsValid : (io : Io) (id : String) (s : SnapshotType) → Keeps IsValid (by_id io id s)
unfolding peek_by_id_for_restore peek_by_id_with_ref
by_id-IsValid io id environment = record {
  from = λ p v. (pin_restore-IsValid (get_template id p)).from p v;
}
by_id-IsValid io id warm_fork = record {
  from = λ p v. ground (
    arith,
    (pin_ref-IsValid (get_template id p)).from p v,
    (acquire_by_id-IsValid io id).from p v,
  );
}
by_id-IsValid io id continuation = record { from = λ p v. v }

pub acquire_for_restore-IsValid :
    (io : Io) (k : TemplateKey) → Keeps IsValid (acquire_for_restore io k)
unfolding acquire_for_restore
acquire_for_restore-IsValid io k = record {
  from = λ p v. elim (Option-cases (latest k p)) [
    | inl e ↦ rw (e, acquire_for_restore) v
    | inr (t, e) ↦ rw (e, acquire_for_restore) ((by_key-IsValid io k t.snapshot_type).from p v)
  ];
}

pub acquire_by_id_for_restore-IsValid :
    (io : Io) (id : String) → Keeps IsValid (acquire_by_id_for_restore io id)
unfolding acquire_by_id_for_restore
acquire_by_id_for_restore-IsValid io id = record {
  from = λ p v. elim (Option-cases (get_template id p)) [
    | inl e ↦ rw (e, acquire_by_id_for_restore) v
    | inr (t, e) ↦
        rw (e, acquire_by_id_for_restore) ((by_id-IsValid io id t.snapshot_type).from p v)
  ];
}
