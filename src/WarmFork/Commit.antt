-- ===== src/WarmFork/Commit.antt =====
-- What the two phases of vmm/task/src/sandbox_service.rs promise the workloads.
use kuasar.Prelude.{
  ℕ, String, ◌≡◌, Bool, true, false, ◌&&◌, List, [], ◌∷◌, ◌==◌, any, arith, is_none, All, ◌++◌, ◌⊎◌,
  take, suc, inl, map, Bool-cases, inr, refl, zero,
}
use kuasar.Prelude.Exec.{Result, ok, err}
use kuasar.Prelude.Map.{Map}
use kuasar.WarmFork.Message.{
  SandboxerMessage, prepare, commit, cancel, WorkloadMessage, ready, capabilities, protocol_version,
}
use kuasar.WarmFork.Talk.{
  ContainerTask, Peer, new_conn, inject_prepare_one, socket_of, connect_in_ns,
  read_and_verify_capabilities, inject_autonomous_one, inject_commit_one, ContainerInjectResult,
}
use kuasar.WarmFork.Inject.{
  Batch, Outcome, prepare_target, autonomous_target, sent_of, sent_to, inject_two_phase,
  failed_results, joined, cancel_ready, cut_off, Prepared, commit_all, commit_target, Clock,
  failed_of,
}

abbrev pub is_commit : SandboxerMessage → Bool
is_commit commit = true
is_commit (prepare p) = false
is_commit (cancel r) = false

abbrev pub is_cancel : SandboxerMessage → Bool
is_cancel (cancel r) = true
is_cancel commit = false
is_cancel (prepare p) = false

abbrev speaks_version : Result String WorkloadMessage → Bool
speaks_version (ok (capabilities c)) = c.protocol_version == protocol_version
speaks_version _ = false

abbrev says_ready : Result String WorkloadMessage → Bool
says_ready (ok ready) = true
says_ready _ = false

-- The target can be reached, speaks the protocol, takes PREPARE, and answers READY.
abbrev pub answers_ready : Map ℕ → ContainerTask × Peer → Bool
answers_ready pids (task, peer) =
    is_none (connect_in_ns peer task.container_id (socket_of task) pids)
    && speaks_version (peer.read 0)
    && is_none (peer.write_fault 0)
    && says_ready (peer.read 1)

abbrev pub all_ready : Map ℕ → Batch → Bool
all_ready pids [] = true
all_ready pids (t ∷ batch) = answers_ready pids t && all_ready pids batch

-- The targets' messages hold none that `b` is true of.
abbrev pub Lacks : (SandboxerMessage → Bool) → List SandboxerMessage → Type 0
Lacks b ms = any b ms ≡ false

abbrev is_ok : Outcome → Bool
is_ok (ok id, c) = true
is_ok (err r, c) = false

module _ (pids : Map ℕ) (task : ContainerTask) (peer : Peer) where
  prepare-Lacks-commit : Lacks is_commit (sent_to (prepare_target pids (task, peer)))
  unfolding inject_prepare_one read_and_verify_capabilities
  prepare-Lacks-commit = ground arith

  prepare-Lacks-cancel : Lacks is_cancel (sent_to (prepare_target pids (task, peer)))
  unfolding inject_prepare_one read_and_verify_capabilities
  prepare-Lacks-cancel = ground arith

  autonomous-Lacks-cancel : Lacks is_cancel (sent_of (autonomous_target pids (task, peer)))
  unfolding inject_autonomous_one read_and_verify_capabilities
  autonomous-Lacks-cancel = ground arith

  is_ok-prepare :
      is_ok (inject_prepare_one peer pids task new_conn) ≡ answers_ready pids (task, peer)
  unfolding inject_prepare_one read_and_verify_capabilities
  is_ok-prepare = ground arith

module _ (b : SandboxerMessage → Bool) where
  Lacks-take : (n : ℕ) (ms : List SandboxerMessage) → Lacks b ms → Lacks b (take n ms)
  Lacks-take zero ms h = refl
  Lacks-take (suc n) [] h = refl
  Lacks-take (suc n) (m ∷ ms) h = ground (arith, Lacks-take n ms)

  Lacks-append : (ms ms' : List SandboxerMessage) → Lacks b ms → Lacks b ms' → Lacks b (ms ++ ms')
  Lacks-append [] ms' h h' = h'
  Lacks-append (m ∷ ms) ms' h h' = ground (arith, Lacks-append ms ms')

  pub All-cut_off :
      (cuts : List ℕ) (sent : List (List SandboxerMessage))
      → All (Lacks b) sent
      → All (Lacks b) (cut_off cuts sent)
  unfolding cut_off
  All-cut_off cuts [] h = tt
  All-cut_off [] (ms ∷ sent) (h, hs) = (refl, All-cut_off [] sent hs)
  All-cut_off (n ∷ cuts) (ms ∷ sent) (h, hs) = (Lacks-take n ms h, All-cut_off cuts sent hs)

  All-joined :
      (sent sent' : List (List SandboxerMessage))
      → All (Lacks b) sent
      → All (Lacks b) sent'
      → All (Lacks b) (joined sent sent')
  unfolding joined
  All-joined [] sent' h h' = h'
  All-joined (ms ∷ sent) [] h h' = h
  All-joined (ms ∷ sent) (ms' ∷ sent') (h, hs) (h', hs') =
      (Lacks-append ms ms' h h', All-joined sent sent' hs hs')

  pub any-Lacks :
      (sent : List (List SandboxerMessage)) → All (Lacks b) sent → any (any b) sent ≡ false
  any-Lacks [] h = refl
  any-Lacks (ms ∷ sent) (h, hs) = ground (arith, any-Lacks sent hs)

module _ (pids : Map ℕ) where
  prepares-Lack-commit :
      (batch : Batch) → All (Lacks is_commit) (map sent_to (map (prepare_target pids) batch))
  prepares-Lack-commit [] = tt
  prepares-Lack-commit ((task, peer) ∷ batch) =
      (prepare-Lacks-commit pids task peer, prepares-Lack-commit batch)

  prepares-Lack-cancel :
      (batch : Batch) → All (Lacks is_cancel) (map sent_to (map (prepare_target pids) batch))
  prepares-Lack-cancel [] = tt
  prepares-Lack-cancel ((task, peer) ∷ batch) =
      (prepare-Lacks-cancel pids task peer, prepares-Lack-cancel batch)

  pub autonomous-Lack-cancel :
      (batch : Batch) → All (Lacks is_cancel) (map sent_of (map (autonomous_target pids) batch))
  autonomous-Lack-cancel [] = tt
  autonomous-Lack-cancel ((task, peer) ∷ batch) =
      (autonomous-Lacks-cancel pids task peer, autonomous-Lack-cancel batch)

cancel_ready-Lacks :
    (peer : Peer) (o : Outcome)
    → Lacks is_commit (sent_of o)
    → Lacks is_commit (cancel_ready (peer, o))
cancel_ready-Lacks peer (err r, c) h = h
cancel_ready-Lacks peer (ok id, c) h = Lacks-append is_commit c.sent _ h refl

cancels-Lack-commit :
    (ps : List Prepared)
    → All (Lacks is_commit) (map sent_to ps)
    → All (Lacks is_commit) (map cancel_ready ps)
cancels-Lack-commit [] h = tt
cancels-Lack-commit ((peer, o) ∷ ps) (h, hs) =
    (cancel_ready-Lacks peer o h, cancels-Lack-commit ps hs)

commit_target-Lacks :
    (peer : Peer) (o : Outcome) → Lacks is_cancel (sent_of (commit_target (peer, o)))
unfolding inject_commit_one
commit_target-Lacks peer (err r, c) = refl
commit_target-Lacks peer (ok id, c) = ground arith

commits-Lack-cancel :
    (ps : List Prepared) → All (Lacks is_cancel) (map sent_of (map commit_target ps))
commits-Lack-cancel [] = tt
commits-Lack-cancel ((peer, o) ∷ ps) = (commit_target-Lacks peer o, commits-Lack-cancel ps)

failed_results-ready :
    (pids : Map ℕ) (batch : Batch)
    → failed_results (map (prepare_target pids) batch) ≡ []
    → all_ready pids batch ≡ true
unfolding failed_results
failed_results-ready pids [] h = refl
failed_results-ready pids ((task, peer) ∷ batch) h =
    let o = inject_prepare_one peer pids task new_conn in
    ground (
      arith,
      failed_results-ready pids batch,
      is_ok-prepare pids task peer,
      none_failed o (failed_results (map (prepare_target pids) batch)) h,
    )
  where
    none_failed :
        (o : Outcome) (rs : List ContainerInjectResult)
        → failed_of o rs ≡ []
        → (is_ok o ≡ true) × (rs ≡ [])
    none_failed (ok id, c) rs h = (refl, h)
    none_failed (err r, c) rs h = ground arith

pub List-cases :
    {A : Type 0} (xs : List A) → (xs ≡ []) ⊎ ((a : A) × (rest : List A) × (xs ≡ a ∷ rest))
List-cases [] = inl refl
List-cases (a ∷ rest) = inr (a, rest, refl)

commit_all-Lacks :
    (clock : Clock) (batch : Batch) (ps : List Prepared)
    → All (Lacks is_cancel) (map sent_to ps)
    → All (Lacks is_cancel) (commit_all clock batch ps).sent
unfolding commit_all
commit_all-Lacks clock batch ps h =
    let new = map sent_of (map commit_target ps) in
    elim (Bool-cases clock.late) [
      | inl e ↦ rw e (
          All-joined is_cancel (map sent_to ps) _ h
            (All-cut_off is_cancel clock.cuts new (commits-Lack-cancel ps)))
      | inr e ↦ rw e (All-joined is_cancel (map sent_to ps) new h (commits-Lack-cancel ps))
    ]

-- In two phases, COMMIT goes out only if every target is ready, and then no CANCEL does.
pub two_phase :
    (p c : Clock) (pids : Map ℕ) (batch : Batch)
    → All (Lacks is_commit) (inject_two_phase p c pids batch).sent
      ⊎ ((all_ready pids batch ≡ true)
          × All (Lacks is_cancel) (inject_two_phase p c pids batch).sent)
unfolding inject_two_phase
two_phase p c pids batch =
    let ps = map (prepare_target pids) batch in
    elim (Bool-cases p.late) [
      | inl e ↦
          inl
            (rw e (All-cut_off is_commit p.cuts (map sent_to ps) (prepares-Lack-commit pids batch)))
      | inr e ↦ elim (List-cases (failed_results ps)) [
        | inl e' ↦ inr (
          failed_results-ready pids batch e',
          rw (e, e') (commit_all-Lacks c batch ps (prepares-Lack-cancel pids batch)),
        )
        | inr (r, rs, e') ↦
            inl (rw (e, e') (cancels-Lack-commit ps (prepares-Lack-commit pids batch)))
      ]
    ]
