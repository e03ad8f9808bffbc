-- ===== src/Template/Pool/Chosen.antt =====
-- The template that an id names (vmm/sandbox/src/template/pool.rs): `acquire_by_id` takes the one that
-- `get_template` finds.
use kuasar.Prelude.{
  String, Option, none, some, List, [], ◌∷◌, ◌++◌, ◌==◌, ◌≡◌, refl, find, arith, Bool-cases, inl,
  inr, ◌∙◌, ap, sym,
}
use kuasar.Prelude.Map.{Map, flat_values}
use kuasar.Template.Types.{PooledTemplate}
use kuasar.Template.Pool.Acquire.{remove_first, take_by_id, keep_head, keep_entry}

-- The first template of a search that goes on if nothing was taken.
abbrev or_later :
    {B : Type 0} → Option (PooledTemplate × B) → Option PooledTemplate → Option PooledTemplate
or_later none o = o
or_later (some (t, q)) o = some t

module _ (id : String) where
  or_later-keep_head :
      (x : PooledTemplate) (r : Option (PooledTemplate × List PooledTemplate))
      (o : Option PooledTemplate)
      → or_later (keep_head x r) o ≡ or_later r o
  or_later-keep_head x none o = refl
  or_later-keep_head x (some (t, q)) o = refl

  find-append :
      (q r : List PooledTemplate)
      → find (λ t. t.id == id) (q ++ r) ≡ or_later (remove_first id q) (find (λ t. t.id == id) r)
  unfolding remove_first
  find-append [] r = refl
  find-append (x ∷ q) r = elim (Bool-cases (x.id == id)) [
    | inl e ↦ ground arith
    | inr e ↦ ground (
      arith,
      find-append q r,
      or_later-keep_head x (remove_first id q) (find (λ t. t.id == id) r),
    )
  ]

  or_later-keep_entry :
      (k : String) (q : List PooledTemplate) (m : Map (List PooledTemplate))
      (r : Option (PooledTemplate × List PooledTemplate))
      (rest : Option (PooledTemplate × Map (List PooledTemplate)))
      → or_later (keep_entry k q m r rest) none ≡ or_later r (or_later rest none)
  or_later-keep_entry k q m (some (t, q')) rest = refl
  or_later-keep_entry k q m none none = refl
  or_later-keep_entry k q m none (some (t, m')) = refl

  find-take_by_id :
      (m : Map (List PooledTemplate))
      → find (λ t. t.id == id) (flat_values m) ≡ or_later (take_by_id id m) none
  unfolding take_by_id
  find-take_by_id [] = refl
  find-take_by_id ((k, q) ∷ m) =
      find-append q (flat_values m)
      ∙ ap (or_later (remove_first id q)) (find-take_by_id m)
      ∙ sym (or_later-keep_entry k q m (remove_first id q) (take_by_id id m))

  -- What `get_template` finds is what `acquire_by_id` takes.
  pub found-taken :
      (m : Map (List PooledTemplate)) (t : PooledTemplate)
      → find (λ t'. t'.id == id) (flat_values m) ≡ some t
      → (m' : Map (List PooledTemplate)) × (take_by_id id m ≡ some (t, m'))
  found-taken m t e = taken (take_by_id id m) (sym (find-take_by_id m) ∙ e)
    where
      taken :
          (o : Option (PooledTemplate × Map (List PooledTemplate)))
          → or_later o none ≡ some t
          → (m' : Map (List PooledTemplate)) × (o ≡ some (t, m'))
      taken none h = cc
      taken (some (t', m')) h = (m', ground arith)
