-- ===== src/Storage/MountInfo/Longest.antt =====
-- Which mount `parse_mount_info_content` finds (vmm/sandbox/src/storage/mount.rs).
use Prim.Native.String.{len}
use kuasar.Prelude.{
  ℕ, String, Bool, true, false, ◌≡◌, refl, sym, ap, subst, Option, none, some, List, [], ◌∷◌, All,
  leb, arith, Bool-cases, ◌⊎◌, inl, inr, if◌then◌else◌,
}
use kuasar.Prelude.Exec.{Result, Result-cases, ok, err}
use kuasar.Prelude.Split.{split_on}
use kuasar.Sandbox.State.{SandboxError}
use kuasar.Storage.MountInfo.Origin.{AmongLines, parse_lines-AmongLines}
use kuasar.Storage.MountInfo.{
  MountInfo, at_separator, entry_at, entry_of, fields_of, with_entry, is_longer, is_parent_or_eq,
  parse_lines, parse_mount_info_content, step_line,
}

-- The length of the mount point of a line whose mount holds the path.
abbrev pub covers : String → List String → Option ℕ
covers target (f0 ∷ f1 ∷ f2 ∷ f3 ∷ mount_point ∷ options ∷ f6 ∷ fields) =
    if is_parent_or_eq mount_point target then some (len mount_point) else none
covers target fields = none

abbrev pub within : Option ℕ → Option MountInfo → Bool
within none best = true
within (some n) none = false
within (some n) (some m) = leb n (len m.mount_point)

abbrev pub holds_path : String → Option MountInfo → Bool
holds_path target none = true
holds_path target (some m) = is_parent_or_eq m.mount_point target

-- What a line does to the best match so far.
record Improves (target : String) (best best' : Option MountInfo) (l : List String) : Type 0 where
  line : within (covers target l) best' ≡ true
  before : (n : Option ℕ) → within n best ≡ true → within n best' ≡ true
  path : holds_path target best ≡ true → holds_path target best' ≡ true

abbrev HasPoint : String → Result SandboxError MountInfo → Type 0
HasPoint mp (ok m) = m.mount_point ≡ mp
HasPoint mp (err e) = Unit

entry_at-point :
    (mp options : String) (o : Option (List String × List String))
    → HasPoint mp (entry_at mp options o)
entry_at-point mp options none = tt
entry_at-point mp options (some (before, [])) = tt
entry_at-point mp options (some (before, t ∷ [])) = tt
entry_at-point mp options (some (before, t ∷ s ∷ [])) = tt
entry_at-point mp options (some (before, t ∷ s ∷ super ∷ more)) = refl

abbrev value_or : Option MountInfo → Result SandboxError (Option MountInfo) → Option MountInfo
value_or o (ok x) = x
value_or o (err e) = o

unchanged :
    (target : String) (best : Option MountInfo) (l : List String) {best' : Option MountInfo}
    → within (covers target l) best ≡ true
    → ◌≡◌ {A = Result SandboxError (Option MountInfo)} (ok best) (ok best')
    → Improves target best best' l
unchanged target best l k h =
    subst (λ b. Improves target best b l) (ap (value_or best) h)
      (record { line = k; before = λ n j. j; path = λ j. j })

longer :
    (best : Option MountInfo) (m : MountInfo) (n : Option ℕ)
    → is_longer m.mount_point best ≡ true
    → within n best ≡ true
    → within n (some m) ≡ true
longer best m none q h = refl
longer none m (some n) q h = ground arith
longer (some b) m (some n) q h = ground arith

kept :
    (best : Option MountInfo) (mp : String)
    → is_longer mp best ≡ false
    → within (some (len mp)) best ≡ true
kept none mp q = ground (arith, q)
kept (some b) mp q = ground (arith, q)

taken :
    (target : String) (best : Option MountInfo) (mp : String) (l : List String)
    {best' : Option MountInfo} (r : Result SandboxError MountInfo)
    → HasPoint mp r
    → is_parent_or_eq mp target ≡ true
    → is_longer mp best ≡ true
    → covers target l ≡ some (len mp)
    → with_entry r ≡ ok best'
    → Improves target best best' l
taken target best mp l (err e) u p q c h = ground (arith, h)
taken target best mp l {best'} (ok m) u p q c h =
    subst (λ b. Improves target best b l) (ap (value_or best) h)
      (record {
        line = rw c (rw u (ground arith));
        before = λ n j. longer best m n (subst (λ x. is_longer x best ≡ true) (sym u) q) j;
        path = λ j. subst (λ x. is_parent_or_eq x target ≡ true) (sym u) p;
      })

step_line-Improves :
    (target : String) (best : Option MountInfo) (l : List String) {best' : Option MountInfo}
    → step_line target best l ≡ ok best'
    → Improves target best best' l
unfolding step_line
step_line-Improves target best [] h = unchanged target best _ refl h
step_line-Improves target best (f0 ∷ []) h = unchanged target best _ refl h
step_line-Improves target best (f0 ∷ f1 ∷ []) h = unchanged target best _ refl h
step_line-Improves target best (f0 ∷ f1 ∷ f2 ∷ []) h = unchanged target best _ refl h
step_line-Improves target best (f0 ∷ f1 ∷ f2 ∷ f3 ∷ []) h = unchanged target best _ refl h
step_line-Improves target best (f0 ∷ f1 ∷ f2 ∷ f3 ∷ f4 ∷ []) h = unchanged target best _ refl h
step_line-Improves target best (f0 ∷ f1 ∷ f2 ∷ f3 ∷ f4 ∷ f5 ∷ []) h = unchanged target best _ refl h
step_line-Improves target best (f0 ∷ f1 ∷ f2 ∷ f3 ∷ mp ∷ options ∷ f6 ∷ fields) h =
    elim (Bool-cases (is_parent_or_eq mp target)) [
      | inl p ↦ elim (Bool-cases (is_longer mp best)) [
        | inl q ↦
            taken target best mp _ (entry_of mp options (f6 ∷ fields))
              (unfold entry_of in entry_at-point mp options (at_separator (f6 ∷ fields))) p q
              (ground (arith, p)) (ground (arith, h, p, q))
        | inr q ↦
            unchanged target best _ (ground (arith, p, kept best mp q)) (ground (arith, h, p, q))
      ]
      | inr p ↦ unchanged target best _ (ground (arith, p)) (ground (arith, h, p))
    ]

parse_lines-longest :
    (target : String) (best : Option MountInfo) (ls : List (List String)) {found : Option MountInfo}
    → parse_lines target best ls ≡ ok found
    → All (λ l. within (covers target l) found ≡ true) ls
      × (((n : Option ℕ) → within n best ≡ true → within n found ≡ true)
          × (holds_path target best ≡ true → holds_path target found ≡ true))
unfolding parse_lines
parse_lines-longest target best [] h = (
  tt,
  subst
      (λ b.
        ((n : Option ℕ) → within n best ≡ true → within n b ≡ true)
        × (holds_path target best ≡ true → holds_path target b ≡ true))
      (ap (value_or best) h) ((λ n j. j), λ j. j),
)
parse_lines-longest target best (l ∷ ls) {found} h = elim (Result-cases (step_line target best l)) [
  | inr (x, e) ↦ absurd (ground (arith, h, e))
  | inl (next, e) ↦
      let step = step_line-Improves target best l e in
      let rest = parse_lines-longest target next ls {found = found} (ground (arith, h, e)) in
      (
        (rest.1.0 (covers target l) step.line, rest.0),
        ((λ n j. rest.1.0 n (step.before n j)), λ j. rest.1.1 (step.path j)),
      )
]

-- If the text is read without error, the mount that is found is one that a line of at least seven
-- fields has, with its type and its options; it holds the path, and no such line names a longer mount
-- point that holds it. If none is found, no such line names a mount point that holds the path.
pub parse_mount_info_content-longest :
    (content target : String) {found : Option MountInfo}
    → parse_mount_info_content content target ≡ ok found
    → AmongLines found (fields_of (split_on b'\n' content))
      × (All (λ l. within (covers target l) found ≡ true) (fields_of (split_on b'\n' content))
          × (holds_path target found ≡ true))
unfolding parse_mount_info_content
parse_mount_info_content-longest content target {found} h =
    let ls = fields_of (split_on b'\n' content) in
    let all = parse_lines-longest target none ls {found = found} h in
    (among ls (parse_lines-AmongLines target none ls {found = found} h), (all.0, all.1.1 refl))
  where
    among : (ls : List (List String)) → (found ≡ none) ⊎ AmongLines found ls → AmongLines found ls
    among ls (inl e) = subst (λ o. AmongLines o ls) (sym e) tt
    among ls (inr a) = a
