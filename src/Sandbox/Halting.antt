-- ===== src/Sandbox/Halting.antt =====
-- How a start or a restore of vmm/sandbox/src/sandbox.rs ends: with a running sandbox, or with its VM
-- stopped.
use kuasar.Prelude.{Bool, false, Option-cases, ◌≡◌, refl, ◌⊎◌, inl, inr, true, ℕ}
use kuasar.Prelude.Exec.{Result, ok, err}
use kuasar.Prelude.Steps.{Triple, bind-Triple, then-Triple, on_error-Triple, on_error, when, Ends}
use kuasar.Sandbox.Agent.{forward_events}
use kuasar.Sandbox.Host.{Host}
use kuasar.Sandbox.Lifecycle.{kill_vm, start}
use kuasar.Sandbox.State.{
  Action, KuasarSandbox, SandboxError, SandboxStatus, created, paused, running, stopped, on_vm,
}

abbrev pub IsRunning : SandboxStatus → Type 0
IsRunning (running pid) = Unit
IsRunning created = ⊥
IsRunning paused = ⊥
IsRunning (stopped code ts) = ⊥

abbrev Anything : {W : Type 0} → KuasarSandbox W → Type 0
Anything s = Unit

module _ {W : Type 0} (host : Host W) where
  -- The last call was one that stops the VM by force.
  abbrev pub Halted : KuasarSandbox W → Type 0
  Halted s = (w : W) × (s.vm ≡ (host.vm_stop true w).1)

  -- The VM itself refused to start.
  abbrev pub Refused : KuasarSandbox W → Type 0
  Refused s = (w : W) × (e : SandboxError) × (host.vm_start w ≡ (err e, s.vm))

  abbrev pub Failed : KuasarSandbox W → Type 0
  Failed s = Refused s ⊎ Halted s

  or_kill-Failed :
      {A : Type 0} (m : Action W A)
      → Triple Anything (on_error m (kill_vm host)) (λ a. Anything) Failed
  unfolding on_vm
  or_kill-Failed {A} m = on_error-Triple m _ anyhow λ s h. inr (s.vm, refl)
    where
      any_end : (r : Result SandboxError A × KuasarSandbox W) → Ends (λ a. Anything) Anything r
      any_end (ok a, s) = tt
      any_end (err e, s) = tt

      anyhow : Triple Anything m (λ a. Anything) Anything
      anyhow = record { ends = λ s h. any_end (m s) }

  when-Failed :
      (b : Bool) (m : Action W (Unit {0}))
      → Triple Anything m (λ a. Anything) Failed
      → Triple Anything (when b m) (λ a. Anything) Failed
  unfolding when
  when-Failed true m t = t
  when-Failed false m t = record { ends = λ s h. tt }

  forward_events-Failed : Triple Anything (forward_events host) (λ a. Anything) Failed
  unfolding forward_events
  forward_events-Failed = record {
    ends = λ s h. elim (Option-cases s.client) [
      | inl e ↦ rw (e, forward_events) tt
      | inr (c, e) ↦ rw (e, forward_events) tt
    ];
  }

  start-Failed : Triple Anything (start host) (λ a s. IsRunning s.status) Failed
  unfolding start on_vm
  start-Failed = record {
    ends = λ s h.
        (bind-Triple _ _ started λ pid. then-Triple _ _ (or_kill-Failed _) (
            then-Triple _ _ (when-Failed _ _ (or_kill-Failed _)) (
              then-Triple _ _ (or_kill-Failed _)
                (then-Triple _ _ forward_events-Failed (record { ends = λ s' h'. tt }))))).ends
          s h;
  }
    where
      refused :
          (w : W) (s : KuasarSandbox W) (r : Result SandboxError ℕ × W)
          → host.vm_start w ≡ r
          → Ends (λ pid. Anything) Failed (r.0, record s { vm = r.1 })
      refused w s (ok pid, w') e = tt
      refused w s (err x, w') e = inl (w, x, e)

      started : Triple Anything (on_vm host.vm_start) (λ pid. Anything) Failed
      started = record { ends = λ s h. refused s.vm s (host.vm_start s.vm) refl }

  -- A cold start ends with a running sandbox, or it fails: then either the VM refused to start, or the
  -- last call to the surroundings was one that stops the VM by force.
  pub start-halts : (s : KuasarSandbox W) → Ends (λ a s'. IsRunning s'.status) Failed (start host s)
  start-halts s = start-Failed.ends s tt
