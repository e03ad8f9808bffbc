-- ===== src/Storage/MountInfo/Origin.antt =====
-- Where the mount comes from that `parse_mount_info_content` finds
-- (vmm/sandbox/src/storage/mount.rs).
use kuasar.Prelude.{
  String, false, ◌≡◌, refl, sym, ap, ◌∙◌, subst, Option, none, some, List, [], ◌∷◌, ◌++◌, ◌==◌, any,
  arith, Bool-cases, ◌⊎◌, inl, inr, ==_iff, ◌&&◌,
}
use kuasar.Prelude.Exec.{Result, Result-cases, ok, err}
use kuasar.Prelude.Split.{split_commas}
use kuasar.Sandbox.State.{SandboxError}
use kuasar.Storage.MountInfo.{
  MountInfo, at_separator, entry_at, entry_of, is_longer, is_parent_or_eq, parse_lines, propagation,
  push_options, step_line, with_entry,
}

-- The line has the mount: its mount point is the fifth field; the separator stands behind the sixth
-- field or later, for the first time there; the type, the source and the options of the file
-- system follow it.
pub record Describes (l : List String) (m : MountInfo) : Type 0 where
  pub field0 : String
  pub field1 : String
  pub field2 : String
  pub field3 : String
  pub mount_options : String
  pub optional : List String
  pub source : String
  pub super_options : String
  pub rest : List String
  pub fields :
      l
      ≡ field0
        ∷ field1
        ∷ field2
        ∷ field3
        ∷ m.mount_point
        ∷ mount_options
        ∷ (optional ++ "-" ∷ m.fs_type ∷ source ∷ super_options ∷ rest)
  pub first : any (λ f. f == "-") optional ≡ false
  pub options :
      m.options
      ≡ push_options [] (split_commas mount_options ++ split_commas super_options)
        ++ propagation optional ∷ []

-- One of the lines has the mount that was found; nothing is asked where none was found.
abbrev pub AmongLines : Option MountInfo → List (List String) → Type 0
AmongLines none ls = Unit
AmongLines (some m) [] = ⊥
AmongLines (some m) (l ∷ ls) = Describes l m ⊎ AmongLines (some m) ls

abbrev Splits : Option (List String × List String) → List String → Type 0
Splits none fs = Unit
Splits (some (before, after)) fs =
    (fs ≡ before ++ "-" ∷ after) × (any (λ f. f == "-") before ≡ false)

at_separator-Splits : (fs : List String) → Splits (at_separator fs) fs
unfolding at_separator
at_separator-Splits [] = tt
at_separator-Splits (f ∷ fs) = elim (Bool-cases (f == "-")) [
  | inl e ↦ rw (e, at_separator) (ground (arith, e, ==_iff f "-"), refl)
  | inr e ↦ rw (e, at_separator) (further e (at_separator fs) (at_separator-Splits fs))
]
  where
    further :
        (f == "-") ≡ false
        → (o : Option (List String × List String)) → Splits o fs
        → Splits (elim o [ none ↦ none | some (before, after) ↦ some (f ∷ before, after) ]) (f ∷ fs)
    further e none h = tt
    further e (some (before, after)) h = (ap (λ gs. f ∷ gs) h.0, ground (arith, h.1, e))

-- The entry that is made of the fields of a line.
abbrev IsMade : List String → Result SandboxError MountInfo → Type 0
IsMade l (ok m) = Describes l m
IsMade l (err e) = Unit

entry_at-IsMade :
    (f0 f1 f2 f3 mp options : String) (fs : List String) (o : Option (List String × List String))
    → Splits o fs
    → IsMade (f0 ∷ f1 ∷ f2 ∷ f3 ∷ mp ∷ options ∷ fs) (entry_at mp options o)
entry_at-IsMade f0 f1 f2 f3 mp options fs none h = tt
entry_at-IsMade f0 f1 f2 f3 mp options fs (some (before, [])) h = tt
entry_at-IsMade f0 f1 f2 f3 mp options fs (some (before, t ∷ [])) h = tt
entry_at-IsMade f0 f1 f2 f3 mp options fs (some (before, t ∷ s ∷ [])) h = tt
entry_at-IsMade f0 f1 f2 f3 mp options fs (some (before, t ∷ s ∷ super ∷ more)) h = record {
  field0 = f0;
  field1 = f1;
  field2 = f2;
  field3 = f3;
  mount_options = options;
  optional = before;
  source = s;
  super_options = super;
  rest = more;
  fields = ap (λ gs. f0 ∷ f1 ∷ f2 ∷ f3 ∷ mp ∷ options ∷ gs) h.0;
  first = h.1;
  options = refl;
}

-- What a line may make of the best match so far.
abbrev Steps : Option MountInfo → List String → Result SandboxError (Option MountInfo) → Type 0
Steps best l (err e) = Unit
Steps best l (ok found) = (found ≡ best) ⊎ ((m : MountInfo) × ((found ≡ some m) × Describes l m))

with_entry-Steps :
    (best : Option MountInfo) (l : List String) (r : Result SandboxError MountInfo)
    → IsMade l r
    → Steps best l (with_entry r)
with_entry-Steps best l (ok m) d = inr (m, (refl, d))
with_entry-Steps best l (err e) d = tt

step_line-Steps :
    (target : String) (best : Option MountInfo) (l : List String)
    → Steps best l (step_line target best l)
unfolding step_line entry_of
step_line-Steps target best [] = inl refl
step_line-Steps target best (f0 ∷ []) = inl refl
step_line-Steps target best (f0 ∷ f1 ∷ []) = inl refl
step_line-Steps target best (f0 ∷ f1 ∷ f2 ∷ []) = inl refl
step_line-Steps target best (f0 ∷ f1 ∷ f2 ∷ f3 ∷ []) = inl refl
step_line-Steps target best (f0 ∷ f1 ∷ f2 ∷ f3 ∷ f4 ∷ []) = inl refl
step_line-Steps target best (f0 ∷ f1 ∷ f2 ∷ f3 ∷ f4 ∷ f5 ∷ []) = inl refl
step_line-Steps target best (f0 ∷ f1 ∷ f2 ∷ f3 ∷ mp ∷ options ∷ f6 ∷ fields) =
    elim (Bool-cases (is_parent_or_eq mp target && is_longer mp best)) [
      | inl e ↦
          rw (e, step_line)
            (with_entry-Steps best _ _ (
              entry_at-IsMade f0 f1 f2 f3 mp options (f6 ∷ fields) (at_separator (f6 ∷ fields))
                (at_separator-Splits (f6 ∷ fields))))
      | inr e ↦ rw (e, step_line) (inl refl)
    ]

pub parse_lines-AmongLines :
    (target : String) (best : Option MountInfo) (ls : List (List String)) {found : Option MountInfo}
    → parse_lines target best ls ≡ ok found
    → (found ≡ best) ⊎ AmongLines found ls
unfolding parse_lines
parse_lines-AmongLines target best [] {found} h =
    inl (sym (ap (λ r. elim r [ ok x ↦ x | err e ↦ best ]) h))
parse_lines-AmongLines target best (l ∷ ls) {found} h =
    elim (Result-cases (step_line target best l)) [
      | inr (x, e) ↦ absurd (ground (arith, h, e))
      | inl (next, e) ↦
          joined next (subst (Steps best l) e (step_line-Steps target best l))
            (parse_lines-AmongLines target next ls {found = found} (ground (arith, h, e)))
    ]
  where
    later : (o : Option MountInfo) → AmongLines o ls → AmongLines o (l ∷ ls)
    later none a = tt
    later (some m) a = inr a

    joined :
        (next : Option MountInfo)
        → (next ≡ best) ⊎ ((m : MountInfo) × ((next ≡ some m) × Describes l m))
        → (found ≡ next) ⊎ AmongLines found ls
        → (found ≡ best) ⊎ AmongLines found (l ∷ ls)
    joined next s (inr a) = inr (later found a)
    joined next (inl same) (inl e) = inl (e ∙ same)
    joined next (inr (m, (made, d))) (inl e) =
        inr (subst (λ o. AmongLines o (l ∷ ls)) (sym (e ∙ made)) (inl d))
