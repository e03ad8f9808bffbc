-- ===== src/Examples/Cpusets.antt =====
-- The theorem on cpusets, at concrete sets, and what is lost where its hypothesis fails.
use kuasar.Prelude.{◌≡◌, ◌||◌, refl, [], ◌∷◌, any, arith, List}
use kuasar.Cpuset.{
  Range, covers, merge_cpusets, merge_all, merge_cpuset, push_missing, cpuset_intersect,
}
use kuasar.Cpuset.Union.{any-merge_cpusets}

abbrev first_set : List Range
first_set = (0, 1) ∷ (4, 4) ∷ []

abbrev second_set : List Range
second_set = (1, 2) ∷ (6, 7) ∷ []

any-merge_cpusets_example :
    any (covers 2) (merge_cpusets first_set second_set)
    ≡ (any (covers 2) first_set || any (covers 2) second_set)
unfolding cpuset_intersect
any-merge_cpusets_example =
    any-merge_cpusets 2 first_set second_set (omega arith, (omega arith, tt))
      (omega arith, (omega arith, tt)) ((refl, tt), (tt, tt))

-- The ranges `5-6` and `1-5` meet: merged with `0-1`, they leave `0-5`, and 6 is lost.
overlap_lost : merge_cpusets ((0, 1) ∷ []) ((5, 6) ∷ (1, 5) ∷ []) ≡ (0, 5) ∷ []
unfolding merge_cpusets merge_all merge_cpuset push_missing cpuset_intersect
overlap_lost = refl
