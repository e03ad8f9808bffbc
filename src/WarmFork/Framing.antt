-- ===== src/WarmFork/Framing.antt =====
-- `read_framed_message` and `write_framed_message` of vmm/common/src/warmfork/message.rs. A stream
-- is the bytes that are in it; serde_json is the pair of functions `to_vec` and `from_slice`.
use kuasar.Prelude.{
  ℕ, zero, suc, ◌+◌, ◌*◌, ◌/◌, ◌%◌, ◌^◌, ◌<◌, ◌≡◌, refl, ap, Option, none, some, List, [], ◌∷◌,
  ◌++◌, length, ltb, arith, if◌then◌else◌, ◌≤◌, ◌∙◌,
}

unfoldable pub to_be_bytes : ℕ → List ℕ
to_be_bytes n = n / 16777216 % 256 ∷ n / 65536 % 256 ∷ n / 256 % 256 ∷ n % 256 ∷ []

unfoldable pub from_be_bytes : ℕ → ℕ → ℕ → ℕ → ℕ
from_be_bytes a b c d = a * 16777216 + b * 65536 + c * 256 + d

abbrev cons_read : ℕ → Option (List ℕ × List ℕ) → Option (List ℕ × List ℕ)
cons_read b none = none
cons_read b (some (bs, rest)) = some (b ∷ bs, rest)

-- `read_exact`; `none` is the end of the stream.
unfoldable pub read_exact : ℕ → List ℕ → Option (List ℕ × List ℕ)
read_exact zero bs = some ([], bs)
read_exact (suc n) [] = none
read_exact (suc n) (b ∷ bs) = cons_read b (read_exact n bs)

module _ {A : Type 0} (to_vec : A → Option (List ℕ)) (from_slice : List ℕ → Option A) where
  abbrev with_header : Option (List ℕ) → Option (List ℕ)
  with_header none = none
  with_header (some body) = some (to_be_bytes (length body % 2 ^ 32) ++ body)

  -- The bytes that are written; `none` is a message that has no JSON form.
  unfoldable pub write_framed_message : A → Option (List ℕ)
  write_framed_message m = with_header (to_vec m)

  abbrev parsed : Option (List ℕ × List ℕ) → Option (A × List ℕ)
  parsed none = none
  parsed (some (body, rest)) = elim (from_slice body) [ none ↦ none | some m ↦ some (m, rest) ]

  -- The message and what is left of the stream; `none` is an error.
  unfoldable pub read_framed_message : ℕ → List ℕ → Option (A × List ℕ)
  read_framed_message max_len (a ∷ b ∷ c ∷ d ∷ stream) =
      let len = from_be_bytes a b c d in
      if ltb max_len len then none else parsed (read_exact len stream)
  read_framed_message max_len stream = none

be_bytes-roundtrip :
    (n : ℕ)
    → n < 4294967296
    → from_be_bytes (n / 16777216 % 256) (n / 65536 % 256) (n / 256 % 256) (n % 256) ≡ n
unfolding from_be_bytes
be_bytes-roundtrip n h = omega arith

read_exact-append : (bs rest : List ℕ) → read_exact (length bs) (bs ++ rest) ≡ some (bs, rest)
unfolding read_exact
read_exact-append [] rest = refl
read_exact-append (b ∷ bs) rest = ap (cons_read b) (read_exact-append bs rest)

module _ {A : Type 0} (to_vec : A → Option (List ℕ)) (from_slice : List ℕ → Option A) where
  read_body :
      (max_len : ℕ) (body rest : List ℕ)
      → max_len < 4294967296
      → length body ≤ max_len
      → read_framed_message to_vec from_slice max_len
          (to_be_bytes (length body % 2 ^ 32) ++ body ++ rest)
        ≡ parsed to_vec from_slice (some (body, rest))
  unfolding read_framed_message to_be_bytes
  read_body max_len body rest h le =
      let small : length body % 2 ^ 32 ≡ length body = omega arith in
      let n = length body in
      rw (small, be_bytes-roundtrip n (omega arith), read_exact-append body rest) (ground arith)

  -- What is written for a message is read back as it, and leaves what follows in the stream, if its
  -- JSON form parses back to it and is no longer than the reader's limit, which is a `u32`.
  pub framed-roundtrip :
      (max_len : ℕ) (m : A) (body rest : List ℕ)
      → to_vec m ≡ some body
      → from_slice body ≡ some m
      → length body ≤ max_len
      → max_len < 4294967296
      → (frame : List ℕ) × (write_framed_message to_vec from_slice m ≡ some frame)
        × (read_framed_message to_vec from_slice max_len (frame ++ rest) ≡ some (m, rest))
  unfolding write_framed_message to_be_bytes
  framed-roundtrip max_len m body rest e e' le h = (
    to_be_bytes (length body % 2 ^ 32) ++ body,
    rw e refl,
    read_body max_len body rest h le ∙ rw (e', parsed) refl,
  )

  -- A message whose JSON form is longer than the reader's limit, but shorter than 2^32 bytes, is still
  -- written, but the reader refuses it.
  pub oversize-refused :
      (max_len : ℕ) (m : A) (body rest : List ℕ)
      → to_vec m ≡ some body
      → max_len < length body
      → length body < 4294967296
      → (frame : List ℕ) × (write_framed_message to_vec from_slice m ≡ some frame)
        × (read_framed_message to_vec from_slice max_len (frame ++ rest) ≡ none)
  unfolding write_framed_message read_framed_message to_be_bytes
  oversize-refused max_len m body rest e lt h =
      let small : length body % 2 ^ 32 ≡ length body = omega arith in
      (
        to_be_bytes (length body % 2 ^ 32) ++ body,
        rw e refl,
        rw (small, be_bytes-roundtrip (length body) h) (ground arith),
      )
