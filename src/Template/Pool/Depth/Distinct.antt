-- ===== src/Template/Pool/Depth/Distinct.antt =====
-- Lists of templates with distinct ids, and what dropping an id does to their length.
use kuasar.Prelude.{
  leb, ap, ==_refl, String, Bool, ◌≡◌, refl, true, false, not, List, [], ◌∷◌, ◌==◌, ==_iff, ◌≤◌,
  ◌+◌, ℕ, zero, suc, arith, any, length, retain, take, retain-All, retain-append, length-append,
  All, All-mono, All-retain, All-take, All-append, Bool-cases, inl, inr, ==_refl, ap,
}
use kuasar.Prelude.Map.{Map, flat_values}
use kuasar.Prelude.Map
use kuasar.Prelude.Sort.{All-sort_by_key, insert, sort_by_key, All-insert, All-sort_by_key}
use kuasar.Template.Types.{PooledTemplate}
use kuasar.Template.Pool.State.{
  TemplatePool, all_templates, queue_lengths, total_depth, retain_other_ids,
}

abbrev pub keep : String → PooledTemplate → Bool
keep id t = not (t.id == id)

abbrev pub Distinct : List PooledTemplate → Type 0
Distinct [] = Unit
Distinct (t ∷ ts) = All (λ u. (u.id == t.id) ≡ false) ts × Distinct ts

abbrev pub has : List PooledTemplate → String → Bool
has ts id = any (λ t. t.id == id) ts

queue_lengths-length :
    (m : Map (List PooledTemplate)) → queue_lengths (Map.values m) ≡ length (flat_values m)
queue_lengths-length [] = refl
queue_lengths-length ((k, q) ∷ m) =
    omega (arith, queue_lengths-length m, length-append {0} q (flat_values m))

pub total_depth-length : (p : TemplatePool) → total_depth p ≡ length (all_templates p)
unfolding total_depth
total_depth-length p = queue_lengths-length p.available

pub flat_values-retain_other_ids :
    (id : String) (m : Map (List PooledTemplate))
    → flat_values (retain_other_ids id m) ≡ retain (keep id) (flat_values m)
unfolding retain_other_ids
flat_values-retain_other_ids id [] = refl
flat_values-retain_other_ids id ((k, q) ∷ m) =
    rw (retain-append (keep id) q, flat_values-retain_other_ids id m)

pub All-flat_values :
    (P : PooledTemplate → Type 0) (m : Map (List PooledTemplate))
    → All (λ e. All P e.1) m
    → All P (flat_values m)
All-flat_values P [] h = tt
All-flat_values P ((k, q) ∷ m) h = All-append P q (flat_values m) h.0 (All-flat_values P m h.1)

drop_absent :
    (id : String) (ts : List PooledTemplate)
    → All (λ u. (u.id == id) ≡ false) ts
    → retain (keep id) ts ≡ ts
drop_absent id ts h = retain-All (keep id) ts (All-mono _ _ ts (λ t e. ground arith) h)

-- At most one template goes.
pub length-drop_le :
    (id : String) (ts : List PooledTemplate)
    → Distinct ts
    → length ts ≤ length (retain (keep id) ts) + 1
length-drop_le id [] d = omega arith
length-drop_le id (t ∷ ts) d = elim (Bool-cases (t.id == id)) [
  | inl e ↦
      let same = (==_iff t.id id).0 e in
      rw (e, retain) (omega (arith, ap length (drop_absent id ts (rw same at d.0))))
  | inr e ↦ rw (e, retain) (omega (arith, length-drop_le id ts d.1))
]

-- One goes, if one has the id.
pub length-drop_eq :
    (id : String) (ts : List PooledTemplate)
    → Distinct ts
    → has ts id ≡ true
    → length (retain (keep id) ts) + 1 ≡ length ts
length-drop_eq id [] d h = cc
length-drop_eq id (t ∷ ts) d h = elim (Bool-cases (t.id == id)) [
  | inl e ↦
      let same = (==_iff t.id id).0 e in
      rw (e, retain) (omega (arith, ap length (drop_absent id ts (rw same at d.0))))
  | inr e ↦ rw (e, retain) (omega (arith, length-drop_eq id ts d.1 (ground arith)))
]

pub Distinct-retain :
    (f : PooledTemplate → Bool) (ts : List PooledTemplate) → Distinct ts → Distinct (retain f ts)
Distinct-retain f [] d = tt
Distinct-retain f (t ∷ ts) d = elim (Bool-cases (f t)) [
  | inl e ↦ rw (e, retain) (All-retain _ f ts d.0, Distinct-retain f ts d.1)
  | inr e ↦ rw (e, retain) (Distinct-retain f ts d.1)
]

pub Distinct-take : (n : ℕ) (ts : List PooledTemplate) → Distinct ts → Distinct (take n ts)
Distinct-take zero ts d = tt
Distinct-take (suc n) [] d = tt
Distinct-take (suc n) (t ∷ ts) d = (All-take _ n ts d.0, Distinct-take n ts d.1)

module _ (key : PooledTemplate → ℕ) where
  Distinct-insert :
      (a : PooledTemplate) (ts : List PooledTemplate)
      → Distinct (a ∷ ts)
      → Distinct (insert key a ts)
  unfolding insert
  Distinct-insert a [] d = (tt, tt)
  Distinct-insert a (t ∷ ts) d = elim (Bool-cases (leb (key a) (key t))) [
    | inl e ↦ rw (e, insert) d
    | inr e ↦
        rw (e, insert)
          (
            All-insert key _ a ts (ground (arith, ==_iff a.id t.id, ==_iff t.id a.id, d.0.0)) d.1.0,
            Distinct-insert a ts (d.0.1, d.1.1),
          )
  ]

  pub Distinct-sort_by_key :
      (ts : List PooledTemplate) → Distinct ts → Distinct (sort_by_key key ts)
  unfolding sort_by_key
  Distinct-sort_by_key [] d = tt
  Distinct-sort_by_key (t ∷ ts) d =
      Distinct-insert t _ (All-sort_by_key key _ ts d.0, Distinct-sort_by_key ts d.1)

pub has-retain :
    (id c : String) (ts : List PooledTemplate)
    → (c == id) ≡ false
    → has ts c ≡ true
    → has (retain (keep id) ts) c ≡ true
has-retain id c [] h e = cc
has-retain id c (t ∷ ts) h e =
    ground (arith, ==_iff t.id c, ==_iff t.id id, ==_iff c id, has-retain id c ts h)

-- Every template of a list has its id in the list.
pub All-has : (ts : List PooledTemplate) → All (λ t. has ts t.id ≡ true) ts
All-has [] = tt
All-has (t ∷ ts) =
    (ground (arith, ==_refl t.id), All-mono _ _ ts (λ u e. ground arith) (All-has ts))
