-- ===== src/Sandbox/GuestFile/Quoting.antt =====
-- The quoting of vmm/sandbox/src/storage/guest_file.rs against the rules of the POSIX shell.
use Prim.Native.Char.{Char, code}
use Prim.Native.String.{[] as empty, ◌∷◌ as char_before}
use text.Mathlib.TextLemmas.{append-nil, append_assoc, cons-append, nil-append}
use text.Mathlib.TextEquality.{Char-path}
use kuasar.Prelude.{
  String, true, ◌≡◌, refl, sym, ap, ◌∙◌, Option, none, some, eqb, arith, if◌then◌else◌, Bool-cases,
  inl, inr,
}
use kuasar.Prelude.Text.{append}
use kuasar.Sandbox.GuestFile.{quote_chars, shell_quote}

-- Where the shell stands in a word.
pub data Mode : Type 0 where
  plain quoted escaped : Mode

abbrev before : Char → Option (String × String) → Option (String × String)
before c none = none
before c (some (w, rest)) = some (char_before c w, rest)

-- The first word of a command and what follows it. Outside quotes only a space, a quote and a
-- backslash are read; anything else is refused.
unfoldable pub read_word : Mode → String → Option (String × String)
read_word plain empty = some ("", "")
read_word quoted empty = none
read_word escaped empty = none
read_word plain (char_before c s) =
    let in_quotes = read_word quoted s in
    let literal = read_word escaped s in
    if eqb (code c) b' '
    then some ("", char_before c s)
    else if eqb (code c) b'\''
    then in_quotes
    else if eqb (code c) b'\\'
    then literal
    else none
read_word quoted (char_before c s) =
    let after = read_word plain s in
    let inside = before c (read_word quoted s) in if eqb (code c) b'\'' then after else inside
read_word escaped (char_before c s) = before c (read_word plain s)

abbrev prefixed : String → Option (String × String) → Option (String × String)
prefixed s none = none
prefixed s (some (w, rest)) = some (append s w, rest)

one_quote : (rest : String) → append "'" rest ≡ char_before "'" rest
unfolding append
one_quote rest = cons-append "'" "" rest ∙ ap (char_before "'") (nil-append rest)

closing :
    (rest : String)
    → append "'\\''" rest
      ≡ char_before "'" (char_before "\\" (char_before "'" (char_before "'" rest)))
unfolding append
closing rest =
    cons-append "'" "\\''" rest
    ∙ ap (char_before "'") (
        cons-append "\\" "''" rest
        ∙ ap (char_before "\\") (cons-append "'" "'" rest ∙ ap (char_before "'") (one_quote rest)))

quote_chars-append :
    (s rest : String) → append (quote_chars s "'") rest ≡ quote_chars s (append "'" rest)
unfolding quote_chars append
quote_chars-append empty rest = refl
quote_chars-append (char_before c s) rest = elim (Bool-cases (eqb (code c) b'\'')) [
  | inl e ↦ rw e (
      append_assoc "'\\''" (quote_chars s "'") rest
      ∙ ap (append "'\\''") (quote_chars-append s rest))
  | inr e ↦
      rw e (cons-append c (quote_chars s "'") rest ∙ ap (char_before c) (quote_chars-append s rest))
]

prefixed_empty : (o : Option (String × String)) → o ≡ prefixed "" o
unfolding append
prefixed_empty none = refl
prefixed_empty (some (w, rest)) = ap (λ v. some (v, rest)) (sym (nil-append w))

before-prefixed :
    (c : Char) (s : String) (o : Option (String × String))
    → before c (prefixed s o) ≡ prefixed (char_before c s) o
unfolding append
before-prefixed c s none = refl
before-prefixed c s (some (w, rest)) = ap (λ v. some (v, rest)) (sym (cons-append c s w))

is_quote : (c : Char) → eqb (code c) b'\'' ≡ true → c ≡ "'"
is_quote c e = Char-path c "'" (ground (arith, e))

read_word-quote_chars :
    (s rest : String)
    → read_word quoted (quote_chars s (append "'" rest)) ≡ prefixed s (read_word plain rest)
unfolding read_word quote_chars
read_word-quote_chars empty rest = rw (one_quote rest) (prefixed_empty (read_word plain rest))
read_word-quote_chars (char_before c s) rest = elim (Bool-cases (eqb (code c) b'\'')) [
  | inl e ↦ rw e (
      ap (read_word quoted) (closing (quote_chars s (append "'" rest)))
      ∙ ap (before "'") (read_word-quote_chars s rest)
      ∙ ap (λ d. before d (prefixed s (read_word plain rest))) (sym (is_quote c e))
      ∙ before-prefixed c s (read_word plain rest))
  | inr e ↦
      rw (e, e)
        (ap (before c) (read_word-quote_chars s rest) ∙ before-prefixed c s (read_word plain rest))
]

-- Whatever a path holds, the shell reads its quoted form, with a space and more behind it, as one
-- word, which is the path, and goes on after it.
pub read_word-shell_quote :
    (s rest : String)
    → read_word plain (append (shell_quote s) (char_before " " rest))
      ≡ some (s, char_before " " rest)
unfolding shell_quote read_word append
read_word-shell_quote s rest =
    let tail = char_before " " rest in
    ap (read_word plain)
      (append_assoc "'" (quote_chars s "'") tail ∙ one_quote (append (quote_chars s "'") tail))
    ∙ ap (read_word quoted) (quote_chars-append s tail)
    ∙ read_word-quote_chars s tail
    ∙ ap (λ w. some (w, tail)) (append-nil s)
