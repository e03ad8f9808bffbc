-- ===== src/Sandbox/Attach/Others.antt =====
-- The containers that the attaching of a mount is not about (vmm/sandbox/src/storage/mod.rs).
use kuasar.Prelude.{
  ℕ, zero, suc, String, Bool, true, false, ◌≡◌, refl, ◌∙◌, Option, none, some, List, [], ◌∷◌, ◌++◌,
  ◌==◌, ==_iff, any, arith, find-test, map, retain, Bool-cases, inl, inr, Option-cases, subst, ◌+◌,
  ◌%◌, ◌^◌,
}
use kuasar.Prelude.Map
use kuasar.Prelude.Map.{get-put, get-delete}
use kuasar.Sandbox.Attach.{attach_storage, modify_at, orphan_match, take_over, update_reusable}
use kuasar.Sandbox.Attach.Keeping.{attach_storage-keeps}
use kuasar.Sandbox.Attach.Stable.{Stable}
use kuasar.Sandbox.Host.{Host}
use kuasar.Sandbox.State.{KuasarSandbox}
use kuasar.Sandbox.Storages.{holds}
use kuasar.Storage.Graph.{
  find_orphan_for_mount, find_orphan_in, find_reusable_index, storage_matches_mount, with_id,
}
use kuasar.Storage.{Mount, Storage, defer, refer}

-- The ids of the storages that the container refers to.
abbrev pub owned : String → List Storage → List String
owned d ss = map (λ t. t.id) (retain (holds d) ss)

holds-refer : (c d : String) (t : Storage) → (c == d) ≡ false → holds d (refer c t) ≡ holds d t
unfolding refer Map.contains_key
holds-refer c d t e = elim (Option-cases (Map.get c t.ref_container)) [
  | inl n ↦ ground (arith, get-put c d 1 t.ref_container)
  | inr (r, n) ↦ ground (arith, get-put c d ((r + 1) % 2 ^ 32) t.ref_container)
]

holds-defer : (o d : String) (t : Storage) → (o == d) ≡ false → holds d (defer o t) ≡ holds d t
unfolding defer Map.contains_key
holds-defer o d t e = ground (arith, get-delete o d t.ref_container)

id-refer : (c : String) (t : Storage) → (refer c t).id ≡ t.id
unfolding refer
id-refer c t = ground arith

id-defer : (c : String) (t : Storage) → (defer c t).id ≡ t.id
unfolding defer
id-defer c t = refl

owned-modify_at :
    (d : String) (f : Storage → Storage) (n : ℕ) (ss : List Storage)
    → ((t : Storage) → holds d (f t) ≡ holds d t)
    → ((t : Storage) → (f t).id ≡ t.id)
    → owned d (modify_at n f ss) ≡ owned d ss
owned-modify_at d f n [] h i = refl
owned-modify_at d f zero (t ∷ ss) h i = ground (arith, h t, i t)
owned-modify_at d f (suc n) (t ∷ ss) h i = ground (arith, owned-modify_at d f n ss h i)

with_id-any :
    (os keys : List String) (x : Option String) (i : String) (rest : Option (String × String))
    {o j : String}
    → find_orphan_in os keys ≡ x
    → with_id x i rest ≡ some (o, j)
    → (rest ≡ some (o, j) → any (λ p. p == o) os ≡ true)
    → any (λ p. p == o) os ≡ true
unfolding find_orphan_in
with_id-any os keys none i rest e h k = k h
with_id-any os keys (some c) i rest {o} e h k =
    subst (λ n. any (λ p. p == n) os ≡ true) (ground arith)
      (find-test (λ c. any (λ p. p == c) os) keys e)

orphan-any :
    (ss : List Storage) (os : List String) (m : Mount) (r : Bool) {o i : String}
    → find_orphan_for_mount ss os m r ≡ some (o, i)
    → any (λ p. p == o) os ≡ true
unfolding find_orphan_for_mount
orphan-any [] os m r h = ground arith
orphan-any (t ∷ ss) os m r {o} {i} h = elim (Bool-cases (storage_matches_mount t m r)) [
  | inl e ↦
      with_id-any os (Map.keys t.ref_container) (find_orphan_in os (Map.keys t.ref_container)) t.id
        (find_orphan_for_mount ss os m r) {j = i} refl (ground (arith, h, e))
        (orphan-any ss os m r {o = o} {i = i})
  | inr e ↦ orphan-any ss os m r {i = i} (ground (arith, h, e))
]

orphan_match-any :
    {W : Type 0} (m : Mount) (r : Bool) (s : KuasarSandbox W) (os : List String) {o i : String}
    → s.restore.orphan_container_ids ≡ os
    → orphan_match m r s ≡ some (o, i)
    → any (λ p. p == o) os ≡ true
unfolding orphan_match
orphan_match-any m r s [] q h = ground (arith, q)
orphan_match-any m r s (p ∷ os) {o} {i} q h =
    orphan-any s.storages (p ∷ os) m r {i = i} (ground (arith, q))

retain-push :
    (d : String) (ss : List Storage) (t : Storage)
    → holds d t ≡ false
    → owned d (ss ++ t ∷ []) ≡ owned d ss
retain-push d [] t h = ground arith
retain-push d (u ∷ ss) t h = ground (arith, retain-push d ss t h)

holds-new :
    (c d : String) (t : Storage)
    → (c == d) ≡ false
    → t.ref_container ≡ []
    → holds d (refer c t) ≡ false
unfolding Map.contains_key Map.get
holds-new c d t e n = holds-refer c d t e ∙ ground (arith, n)

-- What stays as it is for a container `d` that is not an orphan while a mount is attached for `c`.
module _ {W : Type 0} (host : Host W) (c d : String) (e : (c == d) ≡ false) where
  abbrev Same : List Storage → KuasarSandbox W → Type 0
  Same ss u = owned d u.storages ≡ owned d ss

  Same-Stable : (ss : List Storage) → Stable (Same ss) c
  Same-Stable ss = record {
    vm = λ s w h. h;
    number = λ s n h. h;
    push = λ s t n h. retain-push d s.storages (refer c t) (holds-new c d t e n) ∙ h;
  }

  any-ne :
      (o : String) (os : List String)
      → any (λ p. p == o) os ≡ true
      → any (λ p. p == d) os ≡ false
      → (o == d) ≡ false
  any-ne o [] h k = ground arith
  any-ne o (p ∷ os) h k = ground (arith, any-ne o os, ==_iff p o, ==_iff p d, ==_iff o d)

  update-owned :
      (m : Mount) (r : Bool) (o : String) (ss : List Storage)
      → (o == d) ≡ false
      → owned d (update_reusable m r (λ t. refer c (defer o t)) ss) ≡ owned d ss
  unfolding update_reusable
  update-owned m r o ss k = elim (Option-cases (find_reusable_index ss m r)) [
    | inl n ↦ ground (arith, n)
    | inr (i, n) ↦
        rw (n, update_reusable)
          (owned-modify_at d (λ t. refer c (defer o t)) i ss
            (λ t. holds-refer c d (defer o t) e ∙ holds-defer o d t k)
            (λ t. id-refer c (defer o t) ∙ id-defer o t))
  ]

  -- Whether a mount is attached or the call fails, the storages of every container that it is not
  -- about, and that is not an orphan of a restore, are those it had before.
  pub attach_storage-others :
      (m : Mount) (r : Bool) (s : KuasarSandbox W)
      → any (λ p. p == d) s.restore.orphan_container_ids ≡ false
      → owned d (attach_storage host c m r s).1.storages ≡ owned d s.storages
  unfolding take_over
  attach_storage-others m r s k =
      attach_storage-keeps host (Same-Stable s.storages) m r s
        (λ o i u q p t h.
          update-owned m r o u.storages (
            any-ne o s.restore.orphan_container_ids
              (orphan_match-any m r s s.restore.orphan_container_ids refl q) k)
          ∙ h)
        (λ n. owned-modify_at d (refer c) n s.storages (λ t. holds-refer c d t e) (id-refer c)) refl
