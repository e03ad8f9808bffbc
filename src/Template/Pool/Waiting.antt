-- ===== src/Template/Pool/Waiting.antt =====
-- What a request that waits in vmm/sandbox/src/template/pool.rs gets.
use kuasar.Prelude.{
  Option, ℕ, ◌+◌, ◌-◌, ◌%◌, ◌^◌, ◌≡◌, refl, ◌∙◌, ap, subst, String, false, none, some, List, [],
  ◌∷◌, ◌++◌, ◌==◌, ==_refl, eqb, All, map, arith, suc,
}
use kuasar.Prelude.Exec.{ok}
use kuasar.Prelude.Map
use kuasar.Prelude.Map.{get-put, get-delete}
use kuasar.Template.Disk.{Io}
use kuasar.Template.Pool.Acquire.{
  acquire_for_restore, by_key, latest, peek_latest_for_restore, pin_restore,
}
use kuasar.Template.Pool.Add.{add}
use kuasar.Template.Pool.Refs.{drop_refill, end_refill, in_flight_count_for_key, notify}
use kuasar.Template.Pool.State.{TemplatePool}
use kuasar.Template.Pool.Wait.{
  Attempt, Refill, adds, asleep, ends, refill, tried, unless_idle, wait_and_acquire_for_restore,
  wait_loop,
}
use kuasar.Template.Pool.Waking.{Arrives, add-Arrives}
use kuasar.Template.Types.{PooledTemplate, TemplateKey, environment}

-- The refills of these keys end, one after the other.
abbrev pub ended : List TemplateKey → TemplatePool → TemplatePool
ended [] p = p
ended (k ∷ ks) p = ended ks (end_refill k p)

-- None of the refills that end is one of the key.
abbrev pub Others : TemplateKey → List TemplateKey → Type 0
Others k ks = All (λ k'. (k'.key == k.key) ≡ false) ks

next_version : (v : ℕ) → eqb ((v + 1) % 2 ^ 64) v ≡ false
next_version v = ground arith

get-drop_refill :
    (k' k : String) (m : Map.Map ℕ) (o : Option ℕ)
    → (k' == k) ≡ false
    → Map.get k (drop_refill k' m o) ≡ Map.get k m
get-drop_refill k' k m none e = refl
get-drop_refill k' k m (some n) e =
    ground (arith, e, get-put k' k (n - 1) m, get-delete k' k (Map.put k' (n - 1) m))

-- The count of a refill, or zero.
abbrev or_zero : Option ℕ → ℕ
or_zero none = 0
or_zero (some n) = n

last-drop_refill :
    (k : String) (m : Map.Map ℕ) (o : Option ℕ)
    → or_zero o ≡ 1
    → or_zero (Map.get k (drop_refill k m o)) ≡ 0
last-drop_refill k m none h = ground (arith, h)
last-drop_refill k m (some n) h =
    ground (arith, h, ==_refl k, get-put k k (n - 1) m, get-delete k k (Map.put k (n - 1) m))

abbrev attempt : Io → TemplateKey → Attempt
attempt io k = acquire_for_restore io k

module _ (io : Io) (k : TemplateKey) where
  -- The key has no template, and refills in flight.
  record IsMissing (n : ℕ) (p : TemplatePool) : Type 0 where
    none_there : latest k p ≡ none
    in_flight : in_flight_count_for_key k p ≡ n

  end_refill-version :
      (k' : TemplateKey) (p : TemplatePool)
      → (end_refill k' p).template_ready ≡ (p.template_ready + 1) % 2 ^ 64
  unfolding end_refill notify
  end_refill-version k' p = refl

  end_refill-other :
      (k' : TemplateKey) (n : ℕ) (p : TemplatePool)
      → (k'.key == k.key) ≡ false
      → IsMissing n p
      → IsMissing n (end_refill k' p)
  unfolding end_refill notify latest in_flight_count_for_key
  end_refill-other k' n p e h = record {
    none_there = h.none_there;
    in_flight =
        ap or_zero
          (get-drop_refill k'.key k.key p.in_flight_refills (Map.get k'.key p.in_flight_refills) e)
        ∙ h.in_flight;
  }

  end_refill-last : (p : TemplatePool) → IsMissing 1 p → IsMissing 0 (end_refill k p)
  unfolding end_refill notify latest in_flight_count_for_key
  end_refill-last p h = record {
    none_there = h.none_there;
    in_flight =
        last-drop_refill k.key p.in_flight_refills (Map.get k.key p.in_flight_refills) h.in_flight;
  }

  missed : (p : TemplatePool) → latest k p ≡ none → acquire_for_restore io k p ≡ (ok none, p)
  unfolding acquire_for_restore
  missed p h = rw (h, acquire_for_restore) refl

  -- A call that changes the version wakes the loop.
  wakes :
      (seen : ℕ) (e : Refill) (es : List Refill) (p : TemplatePool)
      → eqb (refill io e p).template_ready seen ≡ false
      → asleep io (attempt io k) k seen (e ∷ es) p
        ≡ tried k
            (attempt io k (refill io e p))
            (asleep io (attempt io k) k (refill io e p).template_ready es)
  unfolding asleep
  wakes seen e es p h = rw (h, asleep) refl

  ends-wakes :
      (k' : TemplateKey) (es : List Refill) (p : TemplatePool)
      → asleep io (attempt io k) k p.template_ready (ends k' ∷ es) p
        ≡ tried k
            (attempt io k (end_refill k' p))
            (asleep io (attempt io k) k (end_refill k' p).template_ready es)
  unfolding refill
  ends-wakes k' es p =
      wakes p.template_ready (ends k') es p
        (ap (λ v. eqb v p.template_ready) (end_refill-version k' p) ∙ next_version p.template_ready)

  sleeps_on :
      (n : ℕ) (es : List Refill) (p : TemplatePool)
      → IsMissing (suc n) p
      → tried k (attempt io k p) (asleep io (attempt io k) k p.template_ready es)
        ≡ asleep io (attempt io k) k p.template_ready es p
  sleeps_on n es p h =
      let sleep = asleep io (attempt io k) k p.template_ready es in
      ap (λ a. tried k a sleep) (missed p h.none_there)
      ∙ ap (λ m. unless_idle (eqb m 0) p sleep) h.in_flight
      ∙ ap (λ b. unless_idle b p sleep) positive
    where
      positive : eqb (suc n) 0 ≡ false
      positive = ground arith

  through-Others :
      (n : ℕ) (ks : List TemplateKey) (es : List Refill) (p : TemplatePool)
      → Others k ks
      → IsMissing (suc n) p
      → (asleep io (attempt io k) k p.template_ready (map ends ks ++ es) p
          ≡ asleep io (attempt io k) k (ended ks p).template_ready es (ended ks p))
        × IsMissing (suc n) (ended ks p)
  through-Others n [] es p o h = (refl, h)
  through-Others n (k' ∷ ks) es p (o, os) h =
      let next = end_refill-other k' (suc n) p o h in
      let rest = through-Others n ks es (end_refill k' p) os next in
      (
        ends-wakes k' (map ends ks ++ es) p
            ∙ sleeps_on n (map ends ks ++ es) (end_refill k' p) next
            ∙ rest.0,
        rest.1,
      )

  waits :
      (n : ℕ) (ks : List TemplateKey) (es : List Refill) (p : TemplatePool)
      → Others k ks
      → IsMissing (suc n) p
      → wait_and_acquire_for_restore io k (map ends ks ++ es) p
        ≡ asleep io (attempt io k) k (ended ks p).template_ready es (ended ks p)
  unfolding wait_and_acquire_for_restore wait_loop
  waits n ks es p o h = sleeps_on n (map ends ks ++ es) p h ∙ (through-Others n ks es p o h).0

  gives_up :
      (p : TemplatePool) (es : List Refill)
      → IsMissing 0 p
      → tried k (attempt io k p) (asleep io (attempt io k) k p.template_ready es) ≡ (ok none, p)
  gives_up p es h =
      let sleep = asleep io (attempt io k) k p.template_ready es in
      ap (λ a. tried k a sleep) (missed p h.none_there)
      ∙ ap (λ m. unless_idle (eqb m 0) p sleep) h.in_flight

  gets :
      (t : PooledTemplate) (q : TemplatePool)
      → latest k q ≡ some t
      → t.snapshot_type ≡ environment
      → acquire_for_restore io k q ≡ pin_restore (some t) q
  unfolding acquire_for_restore peek_latest_for_restore
  gets t q h env =
      let newest : acquire_for_restore io k q ≡ by_key io k t.snapshot_type q =
        rw (h, acquire_for_restore) refl in
      newest ∙ ap (λ s. by_key io k s q) env ∙ ap (λ o. pin_restore o q) h

  woken_by_add :
      (t : PooledTemplate) (later : List Refill) (p q : TemplatePool)
      → t.key ≡ k
      → t.snapshot_type ≡ environment
      → add io t p ≡ (ok tt, q)
      → asleep io (attempt io k) k p.template_ready (adds t ∷ later) p ≡ pin_restore (some t) q
  unfolding refill
  woken_by_add t later p q same env e =
      let arrived : Arrives t p.template_ready q = add-Arrives io t p e in
      let after : (add io t p).1 ≡ q = ap (λ r. r.1) e in
      wakes p.template_ready (adds t) later p (
        ap (λ r. eqb r.template_ready p.template_ready) after
        ∙ ap (λ v. eqb v p.template_ready) arrived.version
        ∙ next_version p.template_ready)
      ∙ ap (λ r. tried k (attempt io k r) (asleep io (attempt io k) k r.template_ready later)) after
      ∙ ap (λ a. tried k a (asleep io (attempt io k) k q.template_ready later))
          (gets t q (subst (λ k'. latest k' q ≡ some t) same arrived.newest) env)

  -- A request waits for a key that has no template but a refill in flight, and refills of other keys
  -- end meanwhile. If a refill then adds an environment template of the key with success, the request
  -- is woken and has that template, pinned by a restore in flight, whatever refills follow.
  pub wait_and_acquire_for_restore-found :
      (n : ℕ) (ks : List TemplateKey) (t : PooledTemplate) (later : List Refill)
      (p q : TemplatePool)
      → latest k p ≡ none
      → in_flight_count_for_key k p ≡ suc n
      → Others k ks
      → t.key ≡ k
      → t.snapshot_type ≡ environment
      → add io t (ended ks p) ≡ (ok tt, q)
      → wait_and_acquire_for_restore io k (map ends ks ++ adds t ∷ later) p ≡ pin_restore (some t) q
  unfolding refill
  wait_and_acquire_for_restore-found n ks t later p q none_there flight o same env e =
      waits n ks (adds t ∷ later) p o (record { none_there = none_there; in_flight = flight })
      ∙ woken_by_add t later (ended ks p) q same env e

  -- A request waits for a key that has no template but one refill in flight, and refills of other keys
  -- end meanwhile. If the refill of the key then ends too, the request is woken and ends without a
  -- template at once, whatever refills would follow.
  pub wait_and_acquire_for_restore-gives_up :
      (ks : List TemplateKey) (later : List Refill) (p : TemplatePool)
      → latest k p ≡ none
      → in_flight_count_for_key k p ≡ 1
      → Others k ks
      → wait_and_acquire_for_restore io k (map ends ks ++ ends k ∷ later) p
        ≡ (ok none, end_refill k (ended ks p))
  wait_and_acquire_for_restore-gives_up ks later p none_there flight o =
      let h : IsMissing 1 p = record { none_there = none_there; in_flight = flight } in
      let last = end_refill-last (ended ks p) (through-Others 0 ks (ends k ∷ later) p o h).1 in
      waits 0 ks (ends k ∷ later) p o h
      ∙ ends-wakes k later (ended ks p)
      ∙ gives_up (end_refill k (ended ks p)) later last
