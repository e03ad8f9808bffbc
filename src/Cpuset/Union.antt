-- ===== src/Cpuset/Union.antt =====
-- What the merged set of vmm/sandbox/src/utils.rs holds.
use kuasar.Prelude.{
  ℕ, ◌≤◌, ◌≡◌, true, false, ◌||◌, List, [], ◌∷◌, ◌++◌, map, any, All, arith, max, Bool-cases, inl,
  inr, refl, All-mono, All-append, ◌∙◌,
}
use kuasar.Cpuset.{
  Range, merge_cpuset, cpuset_intersect, merge_all, push_missing, merge_cpusets, covers, IsRange,
  Disjoint,
}

-- The range lies in the part, if it meets it.
abbrev Absorbed : Range → Range → Type 0
Absorbed p part = cpuset_intersect p part ≡ true → (part.0 ≤ p.0) × (p.1 ≤ part.1)

module _ (c : ℕ) where
  covers-merge_cpuset :
      (b d : Range) → covers c (merge_cpuset b d) ≡ true → (covers c b || covers c d) ≡ true
  unfolding merge_cpuset
  covers-merge_cpuset (low, high) (low', high') h = ground arith

  merge_cpuset-grows : (b d : Range) → covers c b ≡ true → covers c (merge_cpuset b d) ≡ true
  unfolding merge_cpuset
  merge_cpuset-grows (low, high) (low', high') h = ground arith

  covers-merge_all :
      (b : Range) (ds : List Range)
      → covers c (merge_all b ds) ≡ true
      → (covers c b || any (covers c) ds) ≡ true
  unfolding merge_all
  covers-merge_all b [] h = ground arith
  covers-merge_all b (d ∷ ds) h =
      ground (arith, covers-merge_all (merge_cpuset b d) ds h, covers-merge_cpuset b d)

  merge_all-grows :
      (b : Range) (ds : List Range) → covers c b ≡ true → covers c (merge_all b ds) ≡ true
  unfolding merge_all
  merge_all-grows b [] h = h
  merge_all-grows b (d ∷ ds) h = merge_all-grows (merge_cpuset b d) ds (merge_cpuset-grows b d h)

  covers-both : (p q : Range) → covers c p ≡ true → covers c q ≡ true → cpuset_intersect p q ≡ true
  unfolding cpuset_intersect
  covers-both (low, high) (low', high') h h' = ground arith

meeting_point :
    (p q : Range)
    → IsRange p
    → IsRange q
    → cpuset_intersect p q ≡ true
    → (c : ℕ) × (covers c p ≡ true) × (covers c q ≡ true)
unfolding cpuset_intersect
meeting_point (low, high) (low', high') v v' h = (max low low', ground arith, ground arith)

merge_cpuset-IsRange : (b d : Range) → IsRange b → IsRange (merge_cpuset b d)
unfolding merge_cpuset
merge_cpuset-IsRange (low, high) (low', high') v = ground arith

merge_all-IsRange : (b : Range) (ds : List Range) → IsRange b → IsRange (merge_all b ds)
unfolding merge_all
merge_all-IsRange b [] v = v
merge_all-IsRange b (d ∷ ds) v =
    merge_all-IsRange (merge_cpuset b d) ds (merge_cpuset-IsRange b d v)

-- A range that the base meets lies in it after the merge; one that it does not meet changes nothing.
merge_cpuset-takes :
    (b d : Range)
    → IsRange d
    → cpuset_intersect d b ≡ true
    → (covers d.0 (merge_cpuset b d) ≡ true) × (covers d.1 (merge_cpuset b d) ≡ true)
unfolding merge_cpuset cpuset_intersect
merge_cpuset-takes (low, high) (low', high') v h = (ground arith, ground arith)

merge_cpuset-skips : (b d : Range) → cpuset_intersect d b ≡ false → merge_cpuset b d ≡ b
unfolding merge_cpuset cpuset_intersect
merge_cpuset-skips (low, high) (low', high') h = ground arith

none_covers :
    (c : ℕ) (d : Range) (ds : List Range)
    → All (λ q. cpuset_intersect q d ≡ false) ds
    → covers c d ≡ true
    → any (covers c) ds ≡ false
none_covers c d [] a h = refl
none_covers c d (q ∷ ds) (a, as') h = ground (arith, none_covers c d ds as' h, covers-both c q d)

Absorbed-head :
    (b d : Range) (ds : List Range)
    → IsRange b
    → IsRange d
    → All (λ q. cpuset_intersect q d ≡ false) ds
    → Absorbed d (merge_all (merge_cpuset b d) ds)
Absorbed-head b d ds vb vd apart h = elim (Bool-cases (cpuset_intersect d b)) [
  | inl e ↦
      let (low, high) = merge_cpuset-takes b d vd e in
      ground (
        arith,
        merge_all-grows d.0 (merge_cpuset b d) ds low,
        merge_all-grows d.1 (merge_cpuset b d) ds high,
      )
  | inr e ↦
      let same = merge_cpuset-skips b d e in
      let (c, in_d, in_part) =
        meeting_point d (merge_all (merge_cpuset b d) ds) vd
          (merge_all-IsRange (merge_cpuset b d) ds (merge_cpuset-IsRange b d vb)) h in
      ground (
        arith,
        same,
        covers-merge_all c (merge_cpuset b d) ds in_part,
        none_covers c d ds apart in_d,
        covers-both c d b in_d,
      )
]

merge_all-Absorbed :
    (b : Range) (ds : List Range)
    → IsRange b
    → All IsRange ds
    → Disjoint ds
    → All (λ d. Absorbed d (merge_all b ds)) ds
unfolding merge_all
merge_all-Absorbed b [] vb vs apart = tt
merge_all-Absorbed b (d ∷ ds) vb (vd, vs) (a, apart) = (
  Absorbed-head b d ds vb vd a,
  merge_all-Absorbed (merge_cpuset b d) ds (merge_cpuset-IsRange b d vb) vs apart,
)

-- Each range that is still to be looked at lies in every part that it meets.
abbrev Absorbs : List Range → Range → Type 0
Absorbs ds part = All (λ d. Absorbed d part) ds

any-snoc :
    (c : ℕ) (parts : List Range) (d : Range)
    → any (covers c) (parts ++ d ∷ []) ≡ (any (covers c) parts || covers c d)
any-snoc c [] d = ground arith
any-snoc c (p ∷ parts) d = ground (arith, any-snoc c parts d)

absorbed-covered :
    (c : ℕ) (d : Range) (ds parts : List Range)
    → All (Absorbs (d ∷ ds)) parts
    → any (cpuset_intersect d) parts ≡ true
    → covers c d ≡ true
    → any (covers c) parts ≡ true
absorbed-covered c d ds [] h e v = e
absorbed-covered c d ds (p ∷ parts) ((a, rest), h) e v =
    ground (arith, absorbed-covered c d ds parts h, a)

any-push_missing :
    (c : ℕ) (parts ds : List Range)
    → All (Absorbs ds) parts
    → Disjoint ds
    → any (covers c) (push_missing parts ds) ≡ (any (covers c) parts || any (covers c) ds)
unfolding push_missing
any-push_missing c parts [] h apart = ground arith
any-push_missing c parts (d ∷ ds) h (a, apart) =
    let rest = All-mono (Absorbs (d ∷ ds)) (Absorbs ds) parts (λ p k. k.1) h in
    elim (Bool-cases (any (cpuset_intersect d) parts)) [
      | inl e ↦ rw e (
          ground (arith, any-push_missing c parts ds rest apart, absorbed-covered c d ds parts h e))
      | inr e ↦
          let new : Absorbs ds d =
            All-mono (λ q. cpuset_intersect q d ≡ false) (λ q. Absorbed q d) ds
              (λ q k m. ground arith) a in
          rw e (
            ground (
              arith,
              any-snoc c parts d,
              any-push_missing c (parts ++ d ∷ []) ds
                  (All-append (Absorbs ds) parts (d ∷ []) rest (new, tt)) apart,
            ))
    ]

merged-Absorbs :
    (xs ys : List Range)
    → All IsRange xs
    → All IsRange ys
    → Disjoint ys
    → All (Absorbs ys) (map (λ p. merge_all p ys) xs)
merged-Absorbs [] ys vx vy apart = tt
merged-Absorbs (x ∷ xs) ys (v, vx) vy apart =
    (merge_all-Absorbed x ys v vy apart, merged-Absorbs xs ys vx vy apart)

any-merge_all :
    (c : ℕ) (xs ys : List Range)
    → (any (covers c) (map (λ p. merge_all p ys) xs) || any (covers c) ys)
      ≡ (any (covers c) xs || any (covers c) ys)
any-merge_all c [] ys = refl
any-merge_all c (x ∷ xs) ys =
    ground (arith, any-merge_all c xs ys, covers-merge_all c x ys, merge_all-grows c x ys)

-- If the ranges of both sets are in order, and no two of the second set meet, the merged set holds a
-- number exactly when one of the two sets does.
pub any-merge_cpusets :
    (c : ℕ) (xs ys : List Range)
    → All IsRange xs
    → All IsRange ys
    → Disjoint ys
    → any (covers c) (merge_cpusets xs ys) ≡ (any (covers c) xs || any (covers c) ys)
unfolding merge_cpusets
any-merge_cpusets c xs ys vx vy apart =
    any-push_missing c (map (λ p. merge_all p ys) xs) ys (merged-Absorbs xs ys vx vy apart) apart
    ∙ any-merge_all c xs ys
