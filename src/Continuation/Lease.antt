-- ===== src/Continuation/Lease.antt =====
-- What `acquire` of vmm/sandbox/src/template/continuation.rs hands out, and what a failed restore
-- gives back.
use kuasar.Prelude.{
  ◌≡◌, refl, true, false, Option, none, some, ==_iff, ==_refl, arith, Option-cases, inl, inr,
}
use kuasar.Template.Disk.{TemplateDir}
use kuasar.Template.Types.{
  PooledTemplate, WorkloadIdentity, SnapshotType, environment, warm_fork, continuation, same_type,
}
use kuasar.Continuation.Store.{
  Store, StoreIo, entry_dir, entry_at, write_entry, acquire, fail_lease, declares,
}
use kuasar.Continuation.Guard.{entry_at-write_entry}

abbrev pub marked : TemplateDir → TemplateDir
marked dir = record dir { consumed = true }

-- What is known of an entry that was acquired.
pub record Acquired (io : StoreIo) (identity : WorkloadIdentity) (s : Store) (t : PooledTemplate)
    : Type 0 where
  pub dir : TemplateDir
  pub there : entry_at (entry_dir identity) s ≡ some dir
  pub saved : dir.saved ≡ some t
  pub is_continuation : same_type t.snapshot_type continuation ≡ true
  pub identified : declares t.workload_identity identity ≡ true
  pub after : (acquire io identity s).1 ≡ write_entry (entry_dir identity) (marked dir) s

module _ (io : StoreIo) (identity : WorkloadIdentity) (s : Store) (t : PooledTemplate) where
  pub acquire-Acquired : (acquire io identity s).0 ≡ some t → Acquired io identity s t
  unfolding acquire
  acquire-Acquired h = elim (Option-cases (entry_at (entry_dir identity) s)) [
    | inl e ↦ ground arith
    | inr (dir, e) ↦ record {
      dir = dir;
      there = e;
      saved = ground arith;
      is_continuation = ground arith;
      identified = ground arith;
      after = ground arith;
    }
  ]

-- What `acquire` hands out is a continuation of the workload that was asked for.
pub acquire-identified :
    (io : StoreIo) (identity : WorkloadIdentity) (s : Store) (t : PooledTemplate)
    → (acquire io identity s).0 ≡ some t
    → (t.snapshot_type ≡ continuation) × (t.workload_identity ≡ some identity)
acquire-identified io identity s t h =
    let a = acquire-Acquired io identity s t h in
    (typed t.snapshot_type a.is_continuation, named t.workload_identity a.identified)
  where
    typed : (x : SnapshotType) → same_type x continuation ≡ true → x ≡ continuation
    typed environment e = ground arith
    typed warm_fork e = ground arith
    typed continuation e = refl

    named : (o : Option WorkloadIdentity) → declares o identity ≡ true → o ≡ some identity
    named none e = ground arith
    named (some identity') e =
        let same : identity'.pod_uid ≡ identity.pod_uid =
          ground (arith, ==_iff identity'.pod_uid identity.pod_uid) in
        let equal : identity'.generation ≡ identity.generation = ground arith in
        λ i. some (record { pod_uid = same i; generation = equal i })

acquire-marks :
    (io : StoreIo) (identity : WorkloadIdentity) (s : Store) (t : PooledTemplate)
    → (a : Acquired io identity s t)
    → entry_at (entry_dir identity) (acquire io identity s).1 ≡ some (marked a.dir)
acquire-marks io identity s t a =
    let path = entry_dir identity in
    rw a.after (
      ground (
        arith,
        entry_at-write_entry path.0 path.1 path.0 path.1 (marked a.dir) s,
        ==_refl path.0,
        ==_refl path.1,
      ))

-- After an `acquire` that succeeded, no other `acquire` of that workload does, in a call that can
-- read the marker.
pub acquire-exclusive :
    (io io' : StoreIo) (identity : WorkloadIdentity) (s : Store) (t : PooledTemplate)
    → (acquire io identity s).0 ≡ some t
    → io'.marker_stat_fails (entry_dir identity) ≡ false
    → (acquire io' identity (acquire io identity s).1).0 ≡ none
unfolding acquire
acquire-exclusive io io' identity s t h reads =
    let a = acquire-Acquired io identity s t h in
    rw (acquire-marks io identity s t a) (ground arith)

-- A restore that fails gives the entry back as it was, if it was not marked before and the marker
-- can be removed.
pub fail_lease-restores :
    (io : StoreIo) (identity : WorkloadIdentity) (s : Store) (t : PooledTemplate)
    (dir : TemplateDir)
    → (acquire io identity s).0 ≡ some t
    → io.remove_marker_fails (entry_dir identity) ≡ false
    → entry_at (entry_dir identity) s ≡ some dir
    → dir.consumed ≡ false
    → entry_at (entry_dir identity) (fail_lease io (some t) (acquire io identity s).1) ≡ some dir
unfolding fail_lease
fail_lease-restores io identity s t dir h removes e free =
    let a = acquire-Acquired io identity s t h in
    let path = entry_dir identity in
    let named = (acquire-identified io identity s t h).1 in
    let s' = (acquire io identity s).1 in
    let cleared = record (marked a.dir) { consumed = false } in
    rw (named, removes, acquire-marks io identity s t a)
      (ground (
        arith,
        a.there,
        entry_at-write_entry path.0 path.1 path.0 path.1 cleared s',
        ==_refl path.0,
        ==_refl path.1,
      ))
