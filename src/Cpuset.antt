-- ===== src/Cpuset.antt =====
-- The merging of cpusets (vmm/sandbox/src/utils.rs), on parsed ranges: `merge_cpusets` between
-- `cpuset_parts` and `cpuset_tostring`.
pub mod Union
use kuasar.Prelude.{
  ℕ, ◌≤◌, ◌≡◌, Bool, true, false, ◌&&◌, List, [], ◌∷◌, ◌++◌, map, any, All, ltb, leb, if◌then◌else◌,
}

abbrev pub Range : Type 0
Range = ℕ × ℕ

unfoldable pub merge_cpuset : Range → Range → Range
merge_cpuset (low, high) (low', high') =
    if ltb high' low
    then (low, high)
    else if ltb high low'
    then (low, high)
    else (if ltb low' low then low' else low, if ltb high high' then high' else high)

unfoldable pub cpuset_intersect : Range → Range → Bool
cpuset_intersect (low1, high1) (low2, high2) =
    if ltb high2 low1 then false else if ltb high1 low2 then false else true

-- The first loop, for one range of the first set.
unfoldable pub merge_all : Range → List Range → Range
merge_all base [] = base
merge_all base (delta ∷ deltas) = merge_all (merge_cpuset base delta) deltas

-- The second loop.
unfoldable pub push_missing : List Range → List Range → List Range
push_missing parts [] = parts
push_missing parts (p ∷ ps) =
    push_missing (if any (cpuset_intersect p) parts then parts else parts ++ p ∷ []) ps

unfoldable pub merge_cpusets : List Range → List Range → List Range
merge_cpusets parts1 parts2 = push_missing (map (λ p. merge_all p parts2) parts1) parts2

abbrev pub covers : ℕ → Range → Bool
covers c (low, high) = leb low c && leb c high

abbrev pub IsRange : Range → Type 0
IsRange (low, high) = low ≤ high

-- No two ranges of the list meet.
abbrev pub Disjoint : List Range → Type 0
Disjoint [] = Unit
Disjoint (p ∷ ps) = All (λ q. cpuset_intersect q p ≡ false) ps × Disjoint ps
