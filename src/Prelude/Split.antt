-- ===== src/Prelude/Split.antt =====
-- `split`, `trim` and `strip_prefix` of Rust's texts, and the lemma on prefixes.
use Prim.Native.String.{String, [], ◌∷◌, count, find, len}
use Prim.Native.Char.{Char, code}
use text.Mathlib.TextEquality.{Char-path}
use text.Mathlib.TextLemmas.{cons-append, nil-append}
use kuasar.Prelude.{
  zero, suc, is_some, retain, ℕ, ◌≡◌, Bool, true, false, ◌&&◌, ◌||◌, Option, none, some, List, eqb,
  leb, arith, inl, inr, Bool-cases, if◌then◌else◌,
}
use mathlib.Core.List.{[] as nil, ◌∷◌ as cons}
use kuasar.Prelude.Text.{append}

-- `char::is_whitespace`.
abbrev is_whitespace : ℕ → Bool
is_whitespace n =
    leb 9 n && leb n 13
    || (eqb n 32
        || (eqb n 133
            || (eqb n 160
                || (eqb n 5760
                    || (leb 8192 n && leb n 8202
                        || (eqb n 8232
                            || (eqb n 8233 || (eqb n 8239 || (eqb n 8287 || eqb n 12288)))))))))

unfoldable pub trim_start : String → String
trim_start [] = []
trim_start (c ∷ s) = let rest = trim_start s in if is_whitespace (code c) then rest else c ∷ s

abbrev keep_char : Char → String → String
keep_char c [] = if is_whitespace (code c) then [] else c ∷ []
keep_char c (d ∷ s) = c ∷ (d ∷ s)

unfoldable pub trim_end : String → String
trim_end [] = []
trim_end (c ∷ s) = keep_char c (trim_end s)

unfoldable pub trim : String → String
trim s = trim_end (trim_start s)

abbrev push_char : Char → List String → List String
push_char c nil = nil
push_char c (cons p ps) = cons (c ∷ p) ps

-- `split`, at the character of this number.
unfoldable pub split_on : ℕ → String → List String
split_on sep [] = cons [] nil
split_on sep (c ∷ s) =
    let rest = split_on sep s in if eqb (code c) sep then cons [] rest else push_char c rest

-- `split(',')`.
unfoldable pub split_commas : String → List String
unfolding split_on
split_commas s = split_on 44 s

unfoldable pub strip_prefix : String → String → Option String
strip_prefix s [] = some s
strip_prefix [] (d ∷ t) = none
strip_prefix (c ∷ s) (d ∷ t) =
    let rest = strip_prefix s t in if eqb (code c) (code d) then rest else none

pub strip_prefix-append : (s t : String) → strip_prefix (append t s) t ≡ some s
unfolding strip_prefix append
strip_prefix-append s [] = ground (arith, nil-append s)
strip_prefix-append s (d ∷ t) = ground (arith, cons-append d t s, strip_prefix-append s t)

pub strip_prefix-some : (k t : String) {s : String} → strip_prefix k t ≡ some s → k ≡ append t s
unfolding strip_prefix append
strip_prefix-some k [] {s} h = ground (arith, nil-append s)
strip_prefix-some [] (d ∷ t) h = ground arith
strip_prefix-some (c ∷ k) (d ∷ t) {s} h = elim (Bool-cases (eqb (code c) (code d))) [
  | inl e ↦
      let p = Char-path c d (ground arith) in
      ground (arith, strip_prefix-some k t {s = s}, cons-append d t s)
  | inr e ↦ ground arith
]

abbrev pub IsCons : List String → Type 0
IsCons nil = ⊥
IsCons (cons p ps) = Unit

push_char-IsCons : (c : Char) (ps : List String) → IsCons ps → IsCons (push_char c ps)
push_char-IsCons c nil h = h
push_char-IsCons c (cons p ps) h = tt

if-IsCons : (b : Bool) (ps qs : List String) → IsCons ps → IsCons qs → IsCons (if b then ps else qs)
if-IsCons true ps qs h k = h
if-IsCons false ps qs h k = k

pub split_on-IsCons : (sep : ℕ) (s : String) → IsCons (split_on sep s)
unfolding split_on
split_on-IsCons sep [] = tt
split_on-IsCons sep (c ∷ s) =
    if-IsCons (eqb (code c) sep) (cons [] (split_on sep s)) (push_char c (split_on sep s)) tt
      (push_char-IsCons c (split_on sep s) (split_on-IsCons sep s))

pub split_commas-IsCons : (s : String) → IsCons (split_commas s)
unfolding split_commas
split_commas-IsCons s = split_on-IsCons 44 s

-- `starts_with`.
unfoldable pub starts_with : String → String → Bool
unfolding strip_prefix
starts_with s t = is_some (strip_prefix s t)

-- `contains`, of a text.
unfoldable pub contains_text : String → String → Bool
contains_text s t = leb (find s t) (len s)

abbrev strip_times : ℕ → String → String → String
strip_times zero t s = s
strip_times (suc fuel) t s = elim (strip_prefix s t) [ none ↦ s | some r ↦ strip_times fuel t r ]

-- `trim_start_matches`, of a text that is not empty: each round takes at least one character.
unfoldable pub trim_start_matches : String → String → String
unfolding strip_prefix
trim_start_matches s t = strip_times (count s) t s

abbrev whitespace_pieces : String → List String
whitespace_pieces [] = cons [] nil
whitespace_pieces (c ∷ s) =
    let rest = whitespace_pieces s in
    if is_whitespace (code c) then cons [] rest else push_char c rest

abbrev is_filled : String → Bool
is_filled [] = false
is_filled (c ∷ s) = true

-- `split_whitespace`: the pieces that are not empty.
unfoldable pub split_whitespace : String → List String
split_whitespace s = retain is_filled (whitespace_pieces s)
