-- ===== src/Container/Chain.antt =====
-- `HandlerChain` of vmm/sandbox/src/container/handler/mod.rs.
use kuasar.Prelude.{ℕ, ◌+◌, ◌-◌, Option, none, some, List, [], ◌∷◌, length, drop, reverse}
use kuasar.Prelude.Exec.{Exec, Result, ok, err}

-- The trait `Handler`, over what it handles.
pub record Handler (E S : Type 0) : Type 0 where
  pub handle : Exec E S (Unit {0})
  pub rollback : Exec E S (Unit {0})

-- How far a run came: its error, the index of the last handler that finished, and the state.
pub record Progress (E S : Type 0) : Type 0 where
  pub failure : Option E
  pub finished_index : ℕ
  pub state : S

module _ {E S : Type 0} where
  abbrev continue : Result E (Unit {0}) × S → ℕ → (S → Progress E S) → Progress E S
  continue (ok a, s) finished rest = rest s
  continue (err e, s) finished rest = record {
    failure = some e;
    finished_index = finished;
    state = s;
  }

  -- The handlers from this index on, with the index of the last one that finished.
  unfoldable pub run_handlers : ℕ → ℕ → List (Handler E S) → S → Progress E S
  run_handlers i finished [] s = record { failure = none; finished_index = finished; state = s }
  run_handlers i finished (h ∷ hs) s = continue (h.handle s) finished (run_handlers (i + 1) i hs)

  -- The failure of a rollback is only logged.
  unfoldable pub rollback_all : List (Handler E S) → S → S
  rollback_all [] s = s
  rollback_all (h ∷ hs) s = rollback_all hs (h.rollback s).1

  abbrev pub settled : List (Handler E S) → Progress E S → Option E → Result E (Unit {0}) × S
  settled hs p none = (ok tt, p.state)
  settled hs p (some e) =
      (err e, rollback_all (drop (length hs - 1 - p.finished_index) (reverse hs)) p.state)

  unfoldable pub handle_chain : List (Handler E S) → Exec E S (Unit {0})
  unfolding run_handlers rollback_all
  handle_chain hs s = let p = run_handlers 0 0 hs s in settled hs p p.failure

  unfoldable pub rollback_chain : List (Handler E S) → Exec E S (Unit {0})
  unfolding rollback_all
  rollback_chain hs s = (ok tt, rollback_all (reverse hs) s)
