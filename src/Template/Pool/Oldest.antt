-- ===== src/Template/Pool/Oldest.antt =====
-- What the search of `add` for the oldest idle template finds (vmm/sandbox/src/template/pool.rs).
use kuasar.Prelude.{
  String, Bool, ◌≡◌, false, ◌||◌, Option, none, some, List, [], ◌∷◌, ◌⊎◌, inl, inr, arith, All,
}
use kuasar.Template.Types.{PooledTemplate}
use kuasar.Template.Pool.State.{TemplatePool, restoring, referenced}
use kuasar.Template.Pool.Add.{oldest_candidate, consider}

abbrev pub pinned : TemplatePool → String → Bool
pinned p x = restoring p x || referenced p x

-- The candidate, if there is one, satisfies `Q`.
abbrev pub Chosen : (PooledTemplate → Type 0) → Option (Option PooledTemplate) → Type 0
Chosen Q none = Unit
Chosen Q (some none) = Unit
Chosen Q (some (some t)) = Q t

module _ (p : TemplatePool) where
  consider-cases :
      (t : PooledTemplate) (c : Option PooledTemplate)
      → (consider p t c ≡ none)
        ⊎ (consider p t c ≡ some c)
        ⊎ ((consider p t c ≡ some (some t)) × (pinned p t.id ≡ false))
  consider-cases t c = ground arith

  -- What holds of every template that is not pinned holds of the candidate.
  pub oldest_candidate-Chosen :
      (Q : PooledTemplate → Type 0) (ts : List PooledTemplate) (c : Option PooledTemplate)
      → All (λ t. pinned p t.id ≡ false → Q t) ts
      → Chosen Q (some c)
      → Chosen Q (oldest_candidate p ts c)
  unfolding oldest_candidate
  oldest_candidate-Chosen Q [] c h hc = hc
  oldest_candidate-Chosen Q (t ∷ ts) c h hc = elim (consider-cases t c) [
    | inl e ↦ rw (e, oldest_candidate) tt
    | inr (inl e) ↦ rw (e, oldest_candidate) (oldest_candidate-Chosen Q ts c h.1 hc)
    | inr (inr (e, free)) ↦
        rw (e, oldest_candidate) (oldest_candidate-Chosen Q ts (some t) h.1 (h.0 free))
  ]
