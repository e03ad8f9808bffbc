-- ===== src/Sandbox/Collecting.antt =====
-- The collection of unused storages of a sandbox (vmm/sandbox/src/storage/mod.rs).
use kuasar.Prelude.Map
use kuasar.Prelude.Map.{get-delete}
use kuasar.Prelude.{
  refl, true, false, ◌≡◌, arith, List, ◌==◌, All, any, ap, ◌∙◌, Bool, All-intro, retain-All, subst,
  sym, All-mono, All-retain, retain, inl, inr, Bool-cases, ==_iff, ==_refl, [], ◌∷◌, not, String,
}
use kuasar.Prelude.Exec.{Keeps, Result, ok, err}
use kuasar.Prelude.Steps.{◌>>◌, Triple, then-Triple, Keeps-Triple, Triple-weaken, Ends}
use kuasar.Sandbox.Host.{Host}
use kuasar.Sandbox.State.{KuasarSandbox, SandboxError, on_vm}
use kuasar.Sandbox.Storages.{
  detach_storage, unused, defer_all, deference_container_storages, detach_each, gc_storages, holds,
}
use kuasar.Storage.{Storage, defer}

-- Every unused storage of the sandbox has the id of one that is still to be detached.
abbrev Pending : List Storage → List Storage → Type 0
Pending todo ss = All (λ s. unused s ≡ true → any (λ t. t.id == s.id) todo ≡ true) ss

abbrev pub NoneUnused : {W : Type 0} → KuasarSandbox W → Type 0
NoneUnused s = All (λ t. unused t ≡ false) s.storages

-- No storage in the list has the id of this one.
abbrev pub is_kept : List Storage → Storage → Bool
is_kept todo s = not (any (λ t. t.id == s.id) todo)

-- The storages that do not have the id of an unused one.
abbrev pub left_over : List Storage → List Storage
left_over ss = retain (is_kept (retain unused ss)) ss

kept-cons :
    (t : Storage) (todo xs : List Storage)
    → retain (is_kept todo) (retain (λ s. not (s.id == t.id)) xs) ≡ retain (is_kept (t ∷ todo)) xs
kept-cons t todo [] = refl
kept-cons t todo (s ∷ xs) = ground (arith, kept-cons t todo xs, ==_iff t.id s.id, ==_iff s.id t.id)

module _ {W : Type 0} (host : Host W) where
  detach_storage-storages :
      (ss : List Storage) (t : Storage) → Keeps (λ s. s.storages ≡ ss) (detach_storage host t)
  unfolding detach_storage ◌>>◌ on_vm
  detach_storage-storages ss t = record { from = λ s p. ground arith }

  detach_storage-Keeps :
      (P : List Storage → Type 0) (t : Storage) → Keeps (λ s. P s.storages) (detach_storage host t)
  detach_storage-Keeps P t = record {
    from = λ s h. subst P (sym ((detach_storage-storages s.storages t).from s refl)) h;
  }

  forget-Pending :
      (t : Storage) (todo xs : List Storage)
      → Pending (t ∷ todo) xs
      → Pending todo (retain (λ s. not (s.id == t.id)) xs)
  forget-Pending t todo [] h = tt
  forget-Pending t todo (s ∷ xs) h = elim (Bool-cases (s.id == t.id)) [
    | inl e ↦ rw e (forget-Pending t todo xs h.1)
    | inr e ↦ rw e (
      (λ u. ground (arith, h.0 u, e, ==_iff t.id s.id, ==_iff s.id t.id)),
      forget-Pending t todo xs h.1,
    )
  ]

  detach_each-unused :
      (container : String) (ss : List Storage)
      → Triple
          (λ s. Pending ss s.storages × All (λ t. holds container t ≡ false) s.storages)
          (detach_each host ss)
          (λ a s. NoneUnused s × All (λ t. holds container t ≡ false) s.storages)
          (λ s. Unit)
  unfolding detach_each
  detach_each-unused container [] = record {
    ends = λ s h. (All-mono _ _ s.storages (λ t u. ground (arith, u)) h.0, h.1);
  }
  detach_each-unused container (t ∷ ss) =
      then-Triple _ _
        (Triple-weaken _
          (Keeps-Triple _ _ (
            detach_storage-Keeps
              (λ xs. Pending (t ∷ ss) xs × All (λ u. holds container u ≡ false) xs) t))
          (λ a s h. h) (λ s h. tt))
        (then-Triple _ _
          (record {
            ends = λ s h. (forget-Pending t ss s.storages h.0, All-retain _ _ s.storages h.1);
          })
          (detach_each-unused container ss))

  all-Pending : (xs : List Storage) → Pending (retain unused xs) xs
  all-Pending [] = tt
  all-Pending (s ∷ xs) = elim (Bool-cases (unused s)) [
    | inl e ↦ (
      λ u. ground (arith, e, ==_refl s.id),
      All-mono _ _ xs (λ t h u. ground (arith, e, h u)) (all-Pending xs),
    )
    | inr e ↦ (
      λ u. ground (arith, e, u),
      All-mono _ _ xs (λ t h u. ground (arith, e, h u)) (all-Pending xs),
    )
  ]

  defer_all-holds :
      (container : String) (ss : List Storage)
      → All (λ t. holds container t ≡ false) (defer_all container ss)
  unfolding defer Map.contains_key
  defer_all-holds container [] = tt
  defer_all-holds container (s ∷ ss) = (
    ground (arith, get-delete container container s.ref_container, ==_refl container),
    defer_all-holds container ss,
  )

  deference-Triple :
      (container : String)
      → Triple
          (λ s. Unit)
          (deference_container_storages host container)
          (λ a s. NoneUnused s × All (λ t. holds container t ≡ false) s.storages)
          (λ s. Unit)
  unfolding deference_container_storages gc_storages
  deference-Triple container =
      then-Triple {P = λ s. All (λ t. holds container t ≡ false) s.storages} _ _
        (record { ends = λ s h. defer_all-holds container s.storages })
        (record {
          ends = λ s h. (detach_each-unused container _).ends s (all-Pending s.storages, h);
        })

  detach_each-kept :
      (todo xs : List Storage)
      → Triple
          (λ s. s.storages ≡ xs)
          (detach_each host todo)
          (λ a s. s.storages ≡ retain (is_kept todo) xs)
          (λ s. Unit)
  unfolding detach_each
  detach_each-kept [] xs = record {
    ends = λ s h. h ∙ sym (retain-All _ xs (All-intro _ xs λ t. refl));
  }
  detach_each-kept (t ∷ todo) xs =
      then-Triple _ _
        (Triple-weaken _ (Keeps-Triple _ _ (detach_storage-storages xs t)) (λ a s h. h) (λ s h. tt))
        (then-Triple _ _ (record { ends = λ s h. ap (retain (λ s. not (s.id == t.id))) h })
          (Triple-weaken _ (detach_each-kept todo (retain (λ s. not (s.id == t.id)) xs))
            (λ a s h. h ∙ kept-cons t todo xs) (λ s h. h)))

  kept-Triple :
      (container : String) (xs : List Storage)
      → Triple
          (λ s. s.storages ≡ xs)
          (deference_container_storages host container)
          (λ a s. s.storages ≡ left_over (defer_all container xs))
          (λ s. Unit)
  unfolding deference_container_storages gc_storages
  kept-Triple container xs =
      then-Triple {P = λ s. s.storages ≡ defer_all container xs} _ _
        (record { ends = λ s h. ap (defer_all container) h })
        (record {
          ends = λ s h.
              subst
                (λ ys.
                  Ends (λ a s'. s'.storages ≡ left_over ys) (λ s'. Unit)
                    (detach_each host (retain unused s.storages) s))
                h ((detach_each-kept (retain unused s.storages) s.storages).ends s refl);
        })

  Ends-and :
      {A : Type 0} (P Q : A → KuasarSandbox W → Type 0)
      (r : Result SandboxError A × KuasarSandbox W)
      → Ends P (λ s. Unit) r
      → Ends Q (λ s. Unit) r
      → Ends (λ a s. P a s × Q a s) (λ s. Unit) r
  Ends-and P Q (ok a, s) h k = (h, k)
  Ends-and P Q (err e, s) h k = tt

  -- When the storages of a container that goes were released without an error, the container is taken
  -- out of every storage, and exactly those storages are gone that then have the id of an unused one:
  -- the others stay, in their order. None that is left is unused, and none is held by the container.
  pub deference_container_storages-collects :
      (container : String) (s : KuasarSandbox W)
      → Ends
          (λ a s'.
            (s'.storages ≡ left_over (defer_all container s.storages))
            × (NoneUnused s' × All (λ t. holds container t ≡ false) s'.storages))
          (λ s'. Unit)
          (deference_container_storages host container s)
  deference_container_storages-collects container s =
      Ends-and _ _ (deference_container_storages host container s)
        ((kept-Triple container s.storages).ends s refl) ((deference-Triple container).ends s tt)
