-- ===== src/Container/Roots.antt =====
-- The roots of containers (vmm/sandbox/src/container/handler/storage.rs): which storage the root of
-- a container is taken from.
use kuasar.Prelude.{
  ℕ, zero, suc, String, Bool, ◌≡◌, refl, sym, subst, ◌∙◌, Option, none, some, List, [], ◌∷◌, ◌++◌,
  ==_refl, arith, find, Bool-cases, inl, inr, Option-cases,
}
use kuasar.Container.Entry.{
  handle_storages, root_storages, and_guest_storage, store_in, stored_spec, mounted_storages,
  spec_mounts, store_at,
}
use kuasar.Container.Pipes.{get_container, set_container}
use kuasar.Prelude.Exec.{Result, ok, err, of_result}
use kuasar.Prelude.Map
use kuasar.Prelude.Map.{get-put}
use kuasar.Prelude.Steps.{◌>>=◌, Ends, Triple, bind-Triple, then-Triple}
use kuasar.Sandbox.Attach.Keeping.{attach_storage-keeps}
use kuasar.Sandbox.Attach.Stable.{Stable}
use kuasar.Sandbox.Attach.{attach_storage, modify_at, take_over, update_reusable}
use kuasar.Sandbox.Host.{Host}
use kuasar.Sandbox.State.{KuasarContainer, KuasarSandbox, Root, Spec, Action, SandboxError}
use kuasar.Storage.Graph.{find_reusable_index}
use kuasar.Storage.{Mount, Storage, defer, is_for_mount, refer}

abbrev mount_point_of : Option Storage → Option String
mount_point_of none = none
mount_point_of (some t) = some t.mount_point

-- Where the first storage with the source and the type of the mount is mounted in the guest.
abbrev pub first_for : Mount → List Storage → Option String
first_for m ss = mount_point_of (find (λ t. is_for_mount t m) ss)

abbrev root_of : Option KuasarContainer → Option String
root_of none = none
root_of (some c) = elim c.container_data.spec [
  | none ↦ none
  | some spec ↦ elim spec.root [ none ↦ none | some r ↦ some r.path ]
]

-- The root in the specification of the container.
abbrev pub root_path : {W : Type 0} → String → KuasarSandbox W → Option String
root_path id s = root_of (Map.get id s.containers)

first_for-push :
    (m : Mount) (ss : List Storage) (t : Storage) {p : String}
    → first_for m ss ≡ some p
    → first_for m (ss ++ t ∷ []) ≡ some p
first_for-push m [] t h = ground arith
first_for-push m (u ∷ ss) t {p} h = elim (Bool-cases (is_for_mount u m)) [
  | inl e ↦ ground (arith, h, e)
  | inr e ↦ rw (e, mount_point_of) (first_for-push m ss t {p = p} (ground (arith, h, e)))
]

first_for-modify_at :
    (m : Mount) (f : Storage → Storage) (n : ℕ) (ss : List Storage)
    → ((t : Storage) → is_for_mount (f t) m ≡ is_for_mount t m)
    → ((t : Storage) → (f t).mount_point ≡ t.mount_point)
    → first_for m (modify_at n f ss) ≡ first_for m ss
first_for-modify_at m f n [] h k = refl
first_for-modify_at m f zero (t ∷ ss) h k = ground (arith, h t, k t)
first_for-modify_at m f (suc n) (t ∷ ss) h k = ground (arith, first_for-modify_at m f n ss h k)

refer-mount :
    (c : String) (t : Storage) (m : Mount)
    → (is_for_mount (refer c t) m ≡ is_for_mount t m) × ((refer c t).mount_point ≡ t.mount_point)
unfolding refer is_for_mount
refer-mount c t m = (ground arith, ground arith)

defer-mount :
    (c : String) (t : Storage) (m : Mount)
    → (is_for_mount (defer c t) m ≡ is_for_mount t m) × ((defer c t).mount_point ≡ t.mount_point)
unfolding defer is_for_mount
defer-mount c t m = (refl, refl)

module _ {W : Type 0} (host : Host W) (c : String) (m n : Mount) (p : String)
    (k : Option KuasarContainer) where
  abbrev FirstAt : KuasarSandbox W → Type 0
  FirstAt s = (first_for n s.storages ≡ some p) × (Map.get c s.containers ≡ k)

  FirstAt-Stable : Stable FirstAt c
  FirstAt-Stable = record {
    vm = λ s w h. h;
    number = λ s k h. h;
    push = λ s t e h. (first_for-push n s.storages (refer c t) h.0, h.1);
  }

  taken-first :
      (r : Bool) (o : String) (ss : List Storage)
      → first_for n (update_reusable m r (λ t. refer c (defer o t)) ss) ≡ first_for n ss
  unfolding update_reusable
  taken-first r o ss = elim (Option-cases (find_reusable_index ss m r)) [
    | inl e ↦ ground (arith, e)
    | inr (i, e) ↦
        rw (e, update_reusable)
          (first_for-modify_at n (λ t. refer c (defer o t)) i ss
            (λ t. (refer-mount c (defer o t) n).0 ∙ (defer-mount o t n).0)
            (λ t. (refer-mount c (defer o t) n).1 ∙ (defer-mount o t n).1))
  ]

  attach_storage-first :
      (r : Bool) (s : KuasarSandbox W) → FirstAt s → FirstAt (attach_storage host c m r s).1
  unfolding take_over
  attach_storage-first r s h =
      attach_storage-keeps host FirstAt-Stable m r s
        (λ o i u q w z h. (taken-first r o u.storages ∙ h.0, h.1))
        (λ j. (
          first_for-modify_at n (refer c) j s.storages (λ t. (refer-mount c t n).0)
                (λ t. (refer-mount c t n).1)
              ∙ h.0,
          h.1,
        ))
        h

root_storages-first :
    (ss : List Storage) (root : String) (guest : List Storage) (m : Mount) {p : String}
    → first_for m ss ≡ some p
    → (g : List Storage) × (root_storages ss root guest (m ∷ []) ≡ ok (p, g))
unfolding root_storages
root_storages-first ss root guest m {p} h = elim (Option-cases (find (λ t. is_for_mount t m) ss)) [
  | inl e ↦ absurd (ground (arith, h, e))
  | inr (t, e) ↦ (and_guest_storage guest t, ground (arith, h, e))
]

module _ {W A : Type 0} where
  trivial : (r : Result SandboxError A × KuasarSandbox W) → Ends (λ a s. Unit {0}) (λ s. Unit {0}) r
  trivial (ok a, s) = tt
  trivial (err e, s) = tt

  any-Triple :
      (R : KuasarSandbox W → Type 0) (n : Action W A) → Triple R n (λ a s. Unit {0}) (λ s. Unit {0})
  any-Triple R n = record { ends = λ s h. trivial (n s) }

  fact-Triple :
      (F : Type 0) (n : Action W A) {P : A → KuasarSandbox W → Type 0}
      → (F → Triple (λ s. Unit {0}) n P (λ s. Unit {0}))
      → Triple (λ s. F) n P (λ s. Unit {0})
  fact-Triple F n k = record { ends = λ s h. (k h).ends s tt }

got :
    (id : String) (c : KuasarContainer) (cs : Map.Map KuasarContainer)
    → Map.get id (Map.put id c cs) ≡ some c
got id c cs = get-put id id c cs ∙ ground (arith, ==_refl id)

module _ {W : Type 0} where
  set_container-root :
      (id : String) (c : KuasarContainer) {p : String}
      → root_of (some c) ≡ some p
      → Triple
          (λ s. Unit {0})
          (set_container {W = W} id c)
          (λ a s. root_path id s ≡ some p)
          (λ s. Unit {0})
  unfolding set_container
  set_container-root id c {p} h = record {
    ends = λ s u. subst (λ o. root_of o ≡ some p) (sym (got id c s.containers)) h;
  }

module _ {W : Type 0} (host : Host W) (id : String) (m : Mount) (c : KuasarContainer) (spec : Spec)
    (r : Root) (rf : c.container_data.rootfs ≡ m ∷ []) (sp : c.container_data.spec ≡ some spec)
    (rt : spec.root ≡ some r) where
  store_at-root :
      (ss : List Storage) (p text : String)
      → Triple
          (λ s. Unit {0})
          (store_at host id c p ss text)
          (λ a s. root_path id s ≡ some p)
          (λ s. Unit {0})
  unfolding stored_spec
  store_at-root ss p text =
      then-Triple _ _ (any-Triple _ _)
        (then-Triple _ _ (any-Triple _ _) (set_container-root id _ (ground (arith, sp, rt))))

  store-root :
      (ss : List Storage) {p : String}
      → first_for m ss ≡ some p
      → Triple
          (λ s. Unit {0})
          (store_in host id c ss)
          (λ a s. root_path id s ≡ some p)
          (λ s. Unit {0})
  unfolding ◌>>=◌
  store-root ss {p} h =
      let q : (g : List Storage) × (root_storages ss "rootfs"
              (mounted_storages ss [] (spec_mounts c.container_data.spec)) c.container_data.rootfs
            ≡ ok (p, g)) =
        rw (rf) (
          root_storages-first ss "rootfs"
            (mounted_storages ss [] (spec_mounts c.container_data.spec)) m h) in
      record {
        ends = λ s u. rw (q.1) (
            (bind-Triple (of_result (host.storages_json q.0)) _ (any-Triple (λ s. Unit {0}) _)
                λ text. store_at-root ss p text).ends
              s tt);
      }

  handle_storages-root :
      (s : KuasarSandbox W) {p : String}
      → Map.get id s.containers ≡ some c
      → first_for m s.storages ≡ some p
      → Ends (λ a t. root_path id t ≡ some p) (λ t. Unit {0}) (handle_storages host id s)
  unfolding handle_storages get_container ◌>>=◌
  handle_storages-root s {p} g f = rw (g) ((store-root s.storages f).ends s tt)

  -- Let a storage with the source and the type of the only root mount of a container be there, and the
  -- container have a root in its specification. When the root mount has been attached, whatever its
  -- options and however that ended, and the storages of the container are handled with success, the root
  -- of the container is the mount point of the first storage with that source and type.
  pub attach_storage-root :
      (is_rootfs : Bool) (s : KuasarSandbox W) {p : String}
      → Map.get id s.containers ≡ some c
      → first_for m s.storages ≡ some p
      → Ends
          (λ a t. root_path id t ≡ some p)
          (λ t. Unit {0})
          (handle_storages host id (attach_storage host id m is_rootfs s).1)
  attach_storage-root is_rootfs s {p} g f =
      let q : FirstAt host id m m p (some c) (attach_storage host id m is_rootfs s).1 =
        attach_storage-first host id m m p (some c) is_rootfs s (f, g) in
      handle_storages-root (attach_storage host id m is_rootfs s).1 q.1 q.0
