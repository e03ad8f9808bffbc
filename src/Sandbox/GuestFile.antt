-- ===== src/Sandbox/GuestFile.antt =====
-- The files that the sandboxer writes into the guest (vmm/sandbox/src/storage/guest_file.rs): the
-- validation of their paths, the quoting of a path for the shell of the guest, and the commands
-- that are run there.
pub mod Quoting
use Prim.Native.Char.{Char, code}
use Prim.Native.String.{[] as empty, ◌∷◌ as char_before}
use kuasar.Prelude.{
  ℕ, zero, suc, ◌/◌, ◌%◌, String, Bool, true, false, not, ◌&&◌, ◌||◌, Option, none, some, List, [],
  ◌∷◌, ◌==◌, eqb, leb, if◌then◌else◌,
}
use kuasar.Prelude.Exec.{Result, ok, err, pure, of_result}
use kuasar.Prelude.Split.{split_on, starts_with}
use kuasar.Prelude.Steps.{◌>>=◌, ◌>>◌}
use kuasar.Prelude.Text.{append, show_octal}
use kuasar.Sandbox.Host.{Host}
use kuasar.Sandbox.State.{Call, SandboxError, invalid_argument}

-- A single quote closes the quotes, stands by itself behind a backslash, and opens them again.
abbrev pub quote_char : Char → String → String
quote_char c rest = if eqb (code c) b'\'' then append "'\\''" rest else char_before c rest

unfoldable pub quote_chars : String → String → String
quote_chars empty rest = rest
quote_chars (char_before c s) rest = quote_char c (quote_chars s rest)

unfoldable pub shell_quote : String → String
unfolding quote_chars
shell_quote s = append "'" (quote_chars s "'")

-- `is_ascii_alphanumeric`, or one of `_.:-`.
abbrev pub is_safe_char : ℕ → Bool
is_safe_char n =
    leb b'a' n && leb n b'z'
    || (leb b'A' n && leb n b'Z'
        || (leb b'0' n && leb n b'9' || (eqb n b'_' || (eqb n b'.' || (eqb n b':' || eqb n b'-')))))

unfoldable pub all_safe : String → Bool
all_safe empty = true
all_safe (char_before c s) = is_safe_char (code c) && all_safe s

unfoldable pub is_dots : String → Bool
is_dots s = s == "." || s == ".."

unfoldable pub validate_guest_component : String → Result SandboxError (Unit {0})
validate_guest_component s =
    if s == "" || is_dots s
    then err invalid_argument
    else if all_safe s
    then ok tt
    else err invalid_argument

abbrev and_ok :
    Result SandboxError (Unit {0}) → Result SandboxError (Unit {0}) → Result SandboxError (Unit {0})
and_ok (ok a) r = r
and_ok (err e) r = err e

-- The pieces behind the first one, or all of a relative path.
unfoldable pub raw_components : List String → Result SandboxError (Unit {0})
raw_components [] = ok tt
raw_components (p ∷ ps) =
    let rest = raw_components ps in if p == "" || is_dots p then err invalid_argument else rest

abbrev rooted : Bool → List String → Result SandboxError (Unit {0})
rooted absolute [] = ok tt
rooted absolute (p ∷ ps) =
    if absolute && p == "" then raw_components ps else raw_components (p ∷ ps)

unfoldable pub validate_raw_components : String → Bool → Result SandboxError (Unit {0})
unfolding raw_components
validate_raw_components path allow_absolute =
    rooted (allow_absolute && starts_with path "/") (split_on b'/' path)

-- `Path::components` of a path whose pieces are neither empty, but for the root, nor dots: each
-- piece that is not empty is a normal component.
unfoldable pub normal_components : List String → Result SandboxError (Unit {0})
normal_components [] = ok tt
normal_components (p ∷ ps) =
    let rest = normal_components ps in
    if p == "" then rest else and_ok (validate_guest_component p) rest

unfoldable pub validate_guest_path : String → Result SandboxError (Unit {0})
unfolding validate_raw_components normal_components
validate_guest_path path =
    if path == ""
    then err invalid_argument
    else and_ok (validate_raw_components path true) (normal_components (split_on b'/' path))

unfoldable pub validate_relative_guest_path : String → Result SandboxError (Unit {0})
unfolding validate_raw_components normal_components
validate_relative_guest_path path =
    and_ok (validate_raw_components path false) (normal_components (split_on b'/' path))

abbrev keep_slash : Char → String → String
keep_slash c empty = if eqb (code c) b'/' then empty else char_before c empty
keep_slash c (char_before d s) = char_before c (char_before d s)

-- `trim_end_matches('/')`.
unfoldable pub trim_slashes : String → String
trim_slashes empty = empty
trim_slashes (char_before c s) = keep_slash c (trim_slashes s)

abbrev join_pieces : String → List String → String
join_pieces path [] = path
join_pieces path (p ∷ ps) = join_pieces (append path (append "/" p)) ps

abbrev with_ok : Result SandboxError (Unit {0}) → String → Result SandboxError String
with_ok (ok a) s = ok s
with_ok (err e) s = err e

unfoldable pub join_guest_path : String → String → Result SandboxError String
join_guest_path base rel =
    with_ok (and_ok (validate_guest_path base) (validate_relative_guest_path rel))
      (join_pieces (trim_slashes base) (split_on b'/' rel))

abbrev has_separator : String → Bool
has_separator empty = false
has_separator (char_before c s) = (eqb (code c) b'/' || eqb (code c) b'\\') || has_separator s

unfoldable pub join_guest_component : String → String → Result SandboxError String
join_guest_component base component =
    with_ok
      (and_ok (validate_guest_path base) (
        if has_separator component
        then err invalid_argument
        else validate_guest_component component))
      (append (trim_slashes base) (append "/" component))

-- `Path::parent` of a path that `validate_guest_path` accepts: what stands before the last slash,
-- with the root itself for a file in the root.
abbrev without_last : List String → List String
without_last [] = []
without_last (p ∷ []) = []
without_last (p ∷ q ∷ ps) = p ∷ without_last (q ∷ ps)

abbrev joined : List String → String
joined [] = ""
joined (p ∷ []) = p
joined (p ∷ q ∷ ps) = append p (append "/" (joined (q ∷ ps)))

unfoldable pub parent : String → String
parent path =
    let up = joined (without_last (split_on b'/' path)) in
    if up == "" && starts_with path "/" then "/" else up

-- A file that is pushed: its content and its mode.
pub record GuestFile : Type 0 where
  pub path : String
  pub content : String
  pub mode : ℕ

module _ {W : Type 0} (host : Host W) (client : String) where
  unfoldable pub exec : String → Call W (Unit {0})
  exec command = host.exec_vm_process client command ""

  unfoldable pub ensure_dir : String → Call W (Unit {0})
  ensure_dir dest = do
    of_result (validate_guest_path dest)
    exec (append "mkdir -p " (shell_quote dest))

  unfoldable pub push_command : String → ℕ → String
  push_command dest mode = append "mkdir -p " (
      append (shell_quote (parent dest)) (
        append " && cat > " (
          append (shell_quote dest)
            (append " && chmod " (append (show_octal mode) (append " " (shell_quote dest)))))))

  unfoldable pub push_file : String → String → ℕ → Call W (Unit {0})
  push_file dest content mode = do
    of_result (validate_guest_path dest)
    of_result (validate_guest_path (parent dest))
    host.exec_vm_process client (push_command dest mode) content

  unfoldable pub ensure_dirs : String → List String → Call W (Unit {0})
  ensure_dirs dest [] = pure tt
  ensure_dirs dest (rel ∷ rels) = do
    path ← of_result (join_guest_path dest rel)
    ensure_dir path
    ensure_dirs dest rels
