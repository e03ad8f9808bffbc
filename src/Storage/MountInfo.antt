-- ===== src/Storage/MountInfo.antt =====
-- The mount that a path lies on, read from the text of `/proc/self/mountinfo`
-- (vmm/sandbox/src/storage/mount.rs).
pub mod Origin
pub mod Longest
use kuasar.Prelude.{
  String, Bool, true, not, ◌&&◌, ◌||◌, Option, none, some, List, [], ◌∷◌, ◌++◌, ◌==◌, any, leb,
  if◌then◌else◌,
}
use Prim.Native.String.{len}
use kuasar.Prelude.Exec.{Result, ok, err}
use kuasar.Prelude.Split.{split_commas, split_on, split_whitespace, starts_with}
use kuasar.Prelude.Text.{append}
use kuasar.Sandbox.State.{SandboxError, failed}

pub record MountInfo : Type 0 where
  pub mount_point : String
  pub fs_type : String
  pub options : List String

-- The parent itself, or something below it: a slash follows the parent.
unfoldable pub is_parent_or_eq : String → String → Bool
is_parent_or_eq parent child =
    if parent == child
    then true
    else if parent == "/"
    then true
    else starts_with child (append parent "/")

-- The fields up to the separator, and those behind it.
unfoldable pub at_separator : List String → Option (List String × List String)
at_separator [] = none
at_separator (f ∷ fs) =
    if f == "-"
    then some ([], fs)
    else elim (at_separator fs) [ none ↦ none | some (before, after) ↦ some (f ∷ before, after) ]

unfoldable pub push_options : List String → List String → List String
push_options options [] = options
push_options options (o ∷ os) =
    push_options (if o == "" || any (λ p. p == o) options then options else options ++ o ∷ []) os

abbrev is_shared : String → Bool
is_shared f = starts_with f "shared:" || f == "shared"

abbrev is_slave : String → Bool
is_slave f = starts_with f "master:" || (starts_with f "propagate_from:" || f == "slave")

unfoldable pub propagation : List String → String
propagation fields =
    if any is_shared fields
    then "shared"
    else if any is_slave fields
    then "slave"
    else if any (λ f. f == "unbindable") fields
    then "unbindable"
    else "private"

-- The fields behind the separator are the type, the source and the options of the file system.
abbrev pub entry_at :
    String → String → Option (List String × List String) → Result SandboxError MountInfo
entry_at mount_point options none = err failed
entry_at mount_point options (some (before, [])) = err failed
entry_at mount_point options (some (before, fs_type ∷ [])) = err failed
entry_at mount_point options (some (before, fs_type ∷ source ∷ [])) = err failed
entry_at mount_point options (some (before, fs_type ∷ source ∷ super ∷ more)) = ok (record {
  mount_point = mount_point;
  fs_type = fs_type;
  options = push_options [] (split_commas options ++ split_commas super) ++ propagation before ∷ [];
})

unfoldable pub entry_of : String → String → List String → Result SandboxError MountInfo
entry_of mount_point options fields = entry_at mount_point options (at_separator fields)

abbrev pub with_entry : Result SandboxError MountInfo → Result SandboxError (Option MountInfo)
with_entry (err e) = err e
with_entry (ok m) = ok (some m)

abbrev pub is_longer : String → Option MountInfo → Bool
is_longer mount_point none = true
is_longer mount_point (some best) = not (leb (len mount_point) (len best.mount_point))

-- One line: the best match so far and the fields of the line.
unfoldable pub step_line :
    String → Option MountInfo → List String → Result SandboxError (Option MountInfo)
step_line target best (f0 ∷ f1 ∷ f2 ∷ f3 ∷ mount_point ∷ options ∷ f6 ∷ fields) =
    if is_parent_or_eq mount_point target && is_longer mount_point best
    then with_entry (entry_of mount_point options (f6 ∷ fields))
    else ok best
step_line target best fields = ok best

unfoldable pub parse_lines :
    String → Option MountInfo → List (List String) → Result SandboxError (Option MountInfo)
parse_lines target best [] = ok best
parse_lines target best (l ∷ ls) = elim (step_line target best l) [
  | err e ↦ err e
  | ok best' ↦ parse_lines target best' ls
]

unfoldable pub fields_of : List String → List (List String)
fields_of [] = []
fields_of (l ∷ ls) = split_whitespace l ∷ fields_of ls

unfoldable pub parse_mount_info_content : String → String → Result SandboxError (Option MountInfo)
unfolding fields_of parse_lines
parse_mount_info_content content mount_point =
    parse_lines mount_point none (fields_of (split_on b'\n' content))
