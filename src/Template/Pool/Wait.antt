-- ===== src/Template/Pool/Wait.antt =====
-- The loops of vmm/sandbox/src/template/pool.rs that wait for a template. What refills do during the
-- wait is a list of their calls; a call wakes the loop if it changes the version of the watch channel
-- `template_ready`, and time runs out at the end of the list. Requests that run during the wait are not
-- modelled.
use kuasar.Prelude.{ℕ, Bool, true, false, Option, none, some, List, [], ◌∷◌, eqb}
use kuasar.Prelude.Exec.{Result, ok, err}
use kuasar.Template.Disk.{Io}
use kuasar.Template.Pool.Acquire.{acquire, acquire_for_restore, peek_with_ref}
use kuasar.Template.Pool.Add.{add}
use kuasar.Template.Pool.Refs.{end_refill, in_flight_count_for_key}
use kuasar.Template.Pool.State.{Action, TemplatePool, PoolError}
use kuasar.Template.Types.{PooledTemplate, TemplateKey}

-- A refill adds its template, or gives up.
pub data Refill : Type 0 where
  adds : PooledTemplate → Refill
  ends : TemplateKey → Refill

-- A failed `add` is the refill's own.
unfoldable pub refill : Io → Refill → TemplatePool → TemplatePool
refill io (adds t) p = (add io t p).1
refill io (ends k) p = end_refill k p

abbrev pub Attempt : Type 0
Attempt = Action (Option PooledTemplate)

-- Whether no refill of the key is in flight decides between an end and sleep.
abbrev pub unless_idle :
    Bool
    → TemplatePool
    → (TemplatePool → Result PoolError (Option PooledTemplate) × TemplatePool)
    → Result PoolError (Option PooledTemplate) × TemplatePool
unless_idle true p sleep = (ok none, p)
unless_idle false p sleep = sleep p

-- What an attempt of the loop leads to: its template, an end without one where no refill of the key is
-- in flight, or sleep.
abbrev pub tried :
    TemplateKey
    → Result PoolError (Option PooledTemplate) × TemplatePool
    → (TemplatePool → Result PoolError (Option PooledTemplate) × TemplatePool)
    → Result PoolError (Option PooledTemplate) × TemplatePool
tried k (err e, p) sleep = (err e, p)
tried k (ok (some t), p) sleep = (ok (some t), p)
tried k (ok none, p) sleep = unless_idle (eqb (in_flight_count_for_key k p) 0) p sleep

-- `rx.changed()` against the time limit, with the version that was seen last: the loop sleeps until
-- the version is another one.
unfoldable pub asleep : Io → Attempt → TemplateKey → ℕ → List Refill → Attempt
asleep io attempt k seen [] p = (ok none, p)
asleep io attempt k seen (e ∷ es) p =
    let q = refill io e p in
    elim (eqb q.template_ready seen) [
      | true ↦ asleep io attempt k seen es q
      | false ↦ tried k (attempt q) (asleep io attempt k q.template_ready es)
    ]

unfoldable pub wait_loop : Io → Attempt → TemplateKey → List Refill → Attempt
wait_loop io attempt k es p = tried k (attempt p) (asleep io attempt k p.template_ready es)

unfoldable pub wait_for_template : Io → TemplateKey → List Refill → Attempt
wait_for_template io k = wait_loop io (acquire io k) k

unfoldable pub wait_and_peek_with_ref : Io → TemplateKey → List Refill → Attempt
wait_and_peek_with_ref io k = wait_loop io (peek_with_ref k) k

unfoldable pub wait_and_acquire_for_restore : Io → TemplateKey → List Refill → Attempt
wait_and_acquire_for_restore io k = wait_loop io (acquire_for_restore io k) k
