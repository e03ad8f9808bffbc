-- ===== src/Storage/Graph.antt =====
-- The storages of a sandbox as the graph of its devices
-- (vmm/sandbox/src/storage/device_graph.rs), with the kinds of mounts that
-- vmm/sandbox/src/storage/mount.rs tells apart.
use kuasar.Prelude.{
  ℕ, zero, suc, String, Bool, true, false, not, ◌&&◌, Option, none, some, List, [], ◌∷◌, ◌==◌, any,
  find, if◌then◌else◌,
}
use kuasar.Prelude.Map
use kuasar.Prelude.Split.{starts_with, trim_start_matches}
use kuasar.Prelude.Text.{append}
use kuasar.Storage.{Mount, Storage, is_for_mount}

unfoldable pub is_bind : Mount → Bool
is_bind m = m.type == "bind" && not (m.source == "")

unfoldable pub is_bind_shm : Mount → Bool
unfolding is_bind
is_bind_shm m = is_bind m && m.destination == "/dev/shm"

unfoldable pub is_overlay : Mount → Bool
is_overlay m = m.type == "overlay"

abbrev lower_dirs_of : Option String → Option String
lower_dirs_of none = none
lower_dirs_of (some o) = some (trim_start_matches o "lowerdir=")

unfoldable pub extract_lower_dirs : List String → Option String
extract_lower_dirs options = lower_dirs_of (find (λ o. starts_with o "lowerdir=") options)

unfoldable pub source_identity_for_mount : Mount → Option String
source_identity_for_mount m = elim (extract_lower_dirs m.options) [
  | some lower ↦ some (append "overlay:" lower)
  | none ↦ if not (m.source == "") then some (append m.type (append ":" m.source)) else none
]

-- Two values that are both there: whether they are equal; else the answer for the other cases.
abbrev pub both_or : Option String → Option String → Bool → Bool → Bool
both_or none b also other = other
both_or (some a) none also other = other
both_or (some a) (some b) also other = a == b && also

unfoldable pub storage_matches_mount : Storage → Mount → Bool → Bool
storage_matches_mount s m is_rootfs =
    both_or s.source_identity (source_identity_for_mount m) (s.type == m.type) (
      if not is_rootfs && is_for_mount s m
      then true
      else both_or s.lower_dirs (extract_lower_dirs m.options) (s.type == m.type) false)

abbrev next_index : Option ℕ → Option ℕ
next_index none = none
next_index (some i) = some (suc i)

unfoldable pub find_reusable_index : List Storage → Mount → Bool → Option ℕ
find_reusable_index [] m is_rootfs = none
find_reusable_index (s ∷ ss) m is_rootfs =
    let rest = next_index (find_reusable_index ss m is_rootfs) in
    if storage_matches_mount s m is_rootfs then some zero else rest

unfoldable pub find_orphan_in : List String → List String → Option String
find_orphan_in orphans containers = find (λ c. any (λ o. o == c) orphans) containers

abbrev pub with_id : Option String → String → Option (String × String) → Option (String × String)
with_id none id rest = rest
with_id (some c) id rest = some (c, id)

-- The container and the storage that it refers to.
unfoldable pub find_orphan_for_mount :
    List Storage → List String → Mount → Bool → Option (String × String)
find_orphan_for_mount [] orphans m is_rootfs = none
find_orphan_for_mount (s ∷ ss) orphans m is_rootfs =
    let rest = find_orphan_for_mount ss orphans m is_rootfs in
    let here = with_id (find_orphan_in orphans (Map.keys s.ref_container)) s.id rest in
    if storage_matches_mount s m is_rootfs then here else rest
