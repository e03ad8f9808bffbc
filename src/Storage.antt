-- ===== src/Storage.antt =====
-- vmm/common/src/storage.rs: a storage that containers of a sandbox refer to. Counts are `u32`, and
-- wrap around as in a release build.
pub mod Graph
pub mod MountInfo
use kuasar.Prelude.{ℕ, ◌+◌, String, Bool, Option, none, some, List, [], ◌∷◌, ◌==◌, ◌&&◌, ◌%◌, ◌^◌}
use kuasar.Prelude.Map
use kuasar.Prelude.Map.{Map}

-- The part of an OCI mount that the program reads.
pub record Mount : Type 0 where
  pub type : String
  pub source : String
  pub destination : String
  pub options : List String

pub record Storage : Type 0 where
  pub host_source : String
  pub type : String
  pub id : String
  pub device_id : Option String
  pub ref_container : Map ℕ
  pub need_guest_handle : Bool
  pub source : String
  pub driver : String
  pub driver_options : List String
  pub fstype : String
  pub options : List String
  pub mount_point : String
  pub lower_dirs : Option String
  pub cleanup_path : Option String
  pub owned_by_runtime : Bool
  pub source_identity : Option String

unfoldable pub is_for_mount : Storage → Mount → Bool
is_for_mount s m = s.host_source == m.source && s.type == m.type

abbrev sum : Map ℕ → ℕ
sum [] = 0
sum ((k, v) ∷ m) = (v + sum m) % 2 ^ 32

unfoldable pub ref_count : Storage → ℕ
ref_count s = sum s.ref_container

unfoldable pub refer : String → Storage → Storage
refer container_id s = elim (Map.get container_id s.ref_container) [
  | none ↦ record s { ref_container = Map.put container_id 1 s.ref_container }
  | some r ↦ record s { ref_container = Map.put container_id ((r + 1) % 2 ^ 32) s.ref_container }
]

unfoldable pub defer : String → Storage → Storage
defer container_id s = record s { ref_container = Map.delete container_id s.ref_container }
