-- ===== src/Template/Disk.antt =====
-- What `store_dir` of a template pool holds: one directory for each template, below `environment/`
-- or `warmfork/`, with its `pooled_template.json` and perhaps the `consumed` marker. The operating
-- system is the argument `Io`, which says what calls fail and what a failed call leaves behind.
use kuasar.Prelude.{
  ℕ, String, ◌≡◌, ◌≢◌, Bool, true, false, ◌&&◌, Option, none, some, arith, ◌==◌, ==_iff, take, not,
  [], Option-cases, refl, inl, inr, if◌then◌else◌,
}
use kuasar.Prelude.Map
use kuasar.Prelude.Map.{Map, get-put, get-delete}
use kuasar.Template.Types.{PooledTemplate}

pub data Subdir : Type 0 where
  environment_dir warmfork_dir : Subdir

-- `saved` is what `pooled_template.json` parses to, if it is there and parses.
pub record TemplateDir : Type 0 where
  pub saved : Option PooledTemplate
  pub consumed : Bool

pub record Disk : Type 0 where
  pub environment : Map TemplateDir
  pub warmfork : Map TemplateDir

pub record Io : Type 0 where
  pub create_dir_fails : Subdir → String → Bool
  -- `some left`: the call fails, having changed a directory that is there by `left`.
  pub remove_dir_fault : Subdir → String → Option (TemplateDir → TemplateDir)
  -- `some made`: the call fails, and `made` says if the file is there all the same.
  pub write_marker_fault : Subdir → String → Option Bool
  pub remove_marker_fails : Subdir → String → Bool
  pub save_fails : Subdir → String → Bool
  -- Of the template's directory, and of the marker in it.
  pub exists_fails : Subdir → String → Bool
  pub stat_fails : Subdir → String → Bool
  pub load_fails : Subdir → String → Bool
  pub read_dir_fails : Subdir → Bool
  -- `some n`: reading the directory breaks off after `n` entries.
  pub next_entry_stops : Subdir → Option ℕ

abbrev pub dirs : Subdir → Disk → Map TemplateDir
dirs environment_dir d = d.environment
dirs warmfork_dir d = d.warmfork

abbrev with_dirs : Subdir → Map TemplateDir → Disk → Disk
with_dirs environment_dir m d = record d { environment = m }
with_dirs warmfork_dir m d = record d { warmfork = m }

abbrev pub same_subdir : Subdir → Subdir → Bool
same_subdir environment_dir environment_dir = true
same_subdir warmfork_dir warmfork_dir = true
same_subdir _ _ = false

unfoldable pub dir_at : Subdir → String → Disk → Option TemplateDir
dir_at s id d = Map.get id (dirs s d)

unfoldable pub write_dir : Subdir → String → TemplateDir → Disk → Disk
write_dir s id t d = with_dirs s (Map.put id t (dirs s d)) d

unfoldable pub delete_dir : Subdir → String → Disk → Disk
delete_dir s id d = with_dirs s (Map.delete id (dirs s d)) d

pub dir_at-write_dir :
    (s : Subdir) (id : String) (t : TemplateDir) (d : Disk) (s' : Subdir) (id' : String)
    → dir_at s' id' (write_dir s id t d)
      ≡ (if same_subdir s s' && id == id' then some t else dir_at s' id' d)
unfolding dir_at write_dir
dir_at-write_dir environment_dir id t d environment_dir id' =
    ground (arith, get-put id id' t d.environment)
dir_at-write_dir environment_dir id t d warmfork_dir id' = ground arith
dir_at-write_dir warmfork_dir id t d environment_dir id' = ground arith
dir_at-write_dir warmfork_dir id t d warmfork_dir id' = ground (arith, get-put id id' t d.warmfork)

pub dir_at-delete_dir :
    (s : Subdir) (id : String) (d : Disk) (s' : Subdir) (id' : String)
    → dir_at s' id' (delete_dir s id d)
      ≡ (if same_subdir s s' && id == id' then none else dir_at s' id' d)
unfolding dir_at delete_dir
dir_at-delete_dir environment_dir id d environment_dir id' =
    ground (arith, get-delete id id' d.environment)
dir_at-delete_dir environment_dir id d warmfork_dir id' = ground arith
dir_at-delete_dir warmfork_dir id d environment_dir id' = ground arith
dir_at-delete_dir warmfork_dir id d warmfork_dir id' = ground (arith, get-delete id id' d.warmfork)

pub data Removal : Type 0 where
  removed not_found failed : Removal

-- What a call leaves of a directory that is there.
abbrev left_behind :
    Subdir → String → Option TemplateDir → (TemplateDir → TemplateDir) → Disk → Disk
left_behind s id none left d = d
left_behind s id (some t) left d = write_dir s id (left t) d

abbrev gone : Subdir → String → Option TemplateDir → Disk → Removal × Disk
gone s id none d = (not_found, d)
gone s id (some t) d = (removed, delete_dir s id d)

-- `tokio::fs::remove_dir_all`.
unfoldable pub remove_dir_all : Io → Subdir → String → Disk → Removal × Disk
remove_dir_all io s id d = elim (io.remove_dir_fault s id) [
  | none ↦ gone s id (dir_at s id d) d
  | some left ↦ (failed, left_behind s id (dir_at s id d) left d)
]

module _ (s : Subdir) (id : String) (d : Disk) (s' : Subdir) (id' : String) (h : id ≢ id') where
  dir_at-gone : (o : Option TemplateDir) → dir_at s' id' (gone s id o d).1 ≡ dir_at s' id' d
  dir_at-gone none = refl
  dir_at-gone (some t) = ground (arith, ==_iff id id', dir_at-delete_dir s id d s' id')

  dir_at-left_behind :
      (o : Option TemplateDir) (left : TemplateDir → TemplateDir)
      → dir_at s' id' (left_behind s id o left d) ≡ dir_at s' id' d
  dir_at-left_behind none left = refl
  dir_at-left_behind (some t) left =
      ground (arith, ==_iff id id', dir_at-write_dir s id (left t) d s' id')

  -- A removal touches no other directory.
  pub dir_at-remove_dir_all :
      (io : Io) → dir_at s' id' (remove_dir_all io s id d).1 ≡ dir_at s' id' d
  unfolding remove_dir_all
  dir_at-remove_dir_all io = elim (Option-cases (io.remove_dir_fault s id)) [
    | inl e ↦ rw (e, remove_dir_all) (dir_at-gone (dir_at s id d))
    | inr (left, e) ↦ rw (e, remove_dir_all) (dir_at-left_behind (dir_at s id d) left)
  ]

abbrev empty_dir : TemplateDir
empty_dir = record { saved = none; consumed = false }

abbrev fresh_dir : Subdir → String → Option TemplateDir → Disk → Disk
fresh_dir s id none d = write_dir s id empty_dir d
fresh_dir s id (some t) d = d

-- `tokio::fs::create_dir_all` of a template's directory.
unfoldable pub create_dir_all : Io → Subdir → String → Disk → Bool × Disk
create_dir_all io s id d =
    if io.create_dir_fails s id then (false, d) else (true, fresh_dir s id (dir_at s id d) d)

-- Nor does the creation of a directory.
pub dir_at-create_dir_all :
    (s : Subdir) (id : String) (d : Disk) (s' : Subdir) (id' : String)
    → id ≢ id'
    → (io : Io) → dir_at s' id' (create_dir_all io s id d).1 ≡ dir_at s' id' d
unfolding create_dir_all
dir_at-create_dir_all s id d s' id' h io = elim (Option-cases (dir_at s id d)) [
  | inl e ↦ ground (arith, ==_iff id id', dir_at-write_dir s id empty_dir d s' id')
  | inr (t, e) ↦ ground arith
]

-- `tokio::fs::try_exists(marker).await.unwrap_or(false)`.
abbrev pub seen_consumed : Io → Subdir → String → TemplateDir → Bool
seen_consumed io s id t = t.consumed && not (io.stat_fails s id)

-- The entries that a scan of a subdirectory reads before an error ends it.
abbrev read_entries : Option ℕ → Map TemplateDir → Map TemplateDir
read_entries none m = m
read_entries (some n) m = take n m

unfoldable pub read_dir : Io → Subdir → Disk → Map TemplateDir
read_dir io s d =
    if io.read_dir_fails s then [] else read_entries (io.next_entry_stops s) (dirs s d)
