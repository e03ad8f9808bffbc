-- ===== src/Template/Pool/Depth/Removal.antt =====
-- The loop that removes candidates, as it changes the number of templates.
use kuasar.Prelude.{
  String, ◌≡◌, ap, ◌∙◌, true, false, none, List, [], ◌∷◌, ◌==◌, ◌≤◌, ◌+◌, ℕ, suc, arith, length,
  retain, length-retain-le, All, ◌⊎◌, inl, inr, if◌then◌else◌,
}
use kuasar.Prelude.Exec.{Result, Exec, ok, err, and_then}
use kuasar.Template.Disk.{Io, Subdir, environment_dir, warmfork_dir, remove_dir_all}
use kuasar.Template.Types.{PooledTemplate, continuation, same_type}
use kuasar.Template.Pool.State.{TemplatePool, all_templates}
use kuasar.Template.Pool.Gc.{remove_candidate, remove_candidates}
use kuasar.Template.Pool.Depth.Distinct.{
  keep, Distinct, has, flat_values-retain_other_ids, length-drop_le, length-drop_eq,
  Distinct-retain, has-retain,
}

-- One round drops the id of its template, or nothing.
remove_candidate-cases :
    (io : Io) (t : PooledTemplate) (p : TemplatePool)
    → (all_templates (remove_candidate io t p).1 ≡ all_templates p)
      ⊎ (all_templates (remove_candidate io t p).1 ≡ retain (keep t.id) (all_templates p))
unfolding remove_candidate
remove_candidate-cases io t p = ground (arith, flat_values-retain_other_ids t.id p.available)

and_then-post {ℓ} :
    {S A B E : Type 0} (Q : S → Type ℓ) (r : Result E A × S) (f : A → Exec E S B)
    → Q r.1
    → ((a : A) → Q (f a r.1).1)
    → Q (and_then r f).1
and_then-post Q (ok a, s) f h k = k a
and_then-post Q (err e, s) f h k = h

-- Distinct ids, and at most `gone` templates fewer than `n`.
pub record Within (n gone : ℕ) (p : TemplatePool) : Type 0 where
  pub distinct : Distinct (all_templates p)
  pub lower : n ≤ length (all_templates p) + gone
  pub upper : length (all_templates p) ≤ n

remove_candidate-Within :
    (io : Io) (t : PooledTemplate) (n gone : ℕ) (p : TemplatePool)
    → Within n gone p
    → Within n (suc gone) (remove_candidate io t p).1
remove_candidate-Within io t n gone p w = elim (remove_candidate-cases io t p) [
  | inl e ↦ record { distinct = rw e w.distinct; lower = rw e (omega arith); upper = rw e w.upper }
  | inr e ↦ record {
    distinct = rw e (Distinct-retain (keep t.id) (all_templates p) w.distinct);
    lower = rw e (omega (arith, length-drop_le t.id (all_templates p) w.distinct));
    upper = rw e (omega (arith, length-retain-le (keep t.id) (all_templates p)));
  }
]

Within-mono : (n a b : ℕ) (p : TemplatePool) → a ≤ b → Within n a p → Within n b p
Within-mono n a b p h w = record { distinct = w.distinct; lower = omega arith; upper = w.upper }

pub remove_candidates-Within :
    (io : Io) (cs : List PooledTemplate) (done n gone : ℕ) (p : TemplatePool)
    → Within n gone p
    → Within n (length cs + gone) (remove_candidates io cs done p).1
unfolding remove_candidates
remove_candidates-Within io [] done n gone p w = Within-mono n gone _ p (omega arith) w
remove_candidates-Within io (t ∷ cs) done n gone p w =
    let w' = remove_candidate-Within io t n gone p w in
    and_then-post (Within n (length (t ∷ cs) + gone)) (remove_candidate io t p) _
      (Within-mono n (suc gone) _ _ (omega arith) w')
      λ a.
        Within-mono n (length cs + suc gone) _ _ (omega arith)
          (remove_candidates-Within io cs _ n (suc gone) _ w')

-- No removal of a directory fails.
abbrev pub NoFault : Io → Type 0
NoFault io = (s : Subdir) (id : String) → io.remove_dir_fault s id ≡ none

-- Without a fault a round of the loop drops the id of its template.
remove_candidate_lem :
    (io : Io) (t : PooledTemplate) (p : TemplatePool)
    → NoFault io
    → same_type t.snapshot_type continuation ≡ false
    → ((remove_candidate io t p).0 ≡ ok true)
      × (all_templates (remove_candidate io t p).1 ≡ retain (keep t.id) (all_templates p))
unfolding remove_candidate remove_dir_all
remove_candidate_lem io t p h c = ground (
  arith,
  flat_values-retain_other_ids t.id p.available,
  h environment_dir t.id,
  h warmfork_dir t.id,
)

and_then-ok {ℓ} :
    {S A B E : Type ℓ} (r : Result E A × S) (f : A → Exec E S B) (a : A)
    → r.0 ≡ ok a
    → and_then r f ≡ f a r.1
and_then-ok (ok b, s) f a e = ground arith
and_then-ok (err x, s) f a e = cc

still_has :
    (id : String) (ts : List PooledTemplate) (cs : List PooledTemplate)
    → All (λ u. (u.id == id) ≡ false) cs
    → All (λ c. has ts c.id ≡ true) cs
    → All (λ c. has (retain (keep id) ts) c.id ≡ true) cs
still_has id ts [] ne h = tt
still_has id ts (c ∷ cs) ne h = (has-retain id c.id ts ne.0 h.0, still_has id ts cs ne.1 h.1)

-- Without a fault every candidate of the pool goes, and nothing else.
pub remove_candidates-length :
    (io : Io) (cs : List PooledTemplate) (done : ℕ) (p : TemplatePool)
    → NoFault io
    → Distinct (all_templates p)
    → Distinct cs
    → All (λ c. same_type c.snapshot_type continuation ≡ false) cs
    → All (λ c. has (all_templates p) c.id ≡ true) cs
    → (length (all_templates (remove_candidates io cs done p).1) + length cs
        ≡ length (all_templates p))
      × ((remove_candidates io cs done p).0 ≡ ok (done + length cs))
unfolding remove_candidates
remove_candidates-length io [] done p nf d dc k h = (omega arith, ap ok (omega arith))
remove_candidates-length io (t ∷ cs) done p nf d dc k h =
    let (okay, ts) = remove_candidate_lem io t p nf k.0 in
    let p' = (remove_candidate io t p).1 in
    let rest =
      remove_candidates-length io cs (done + 1) p' nf
        (rw ts (Distinct-retain (keep t.id) (all_templates p) d)) dc.1 k.1
        (rw ts (still_has t.id (all_templates p) cs dc.0 h.1)) in
    rw
      (and_then-ok (remove_candidate io t p)
        (λ b. remove_candidates io cs (if b then done + 1 else done)) true okay)
      (
        omega (arith, rest.0, ap length ts, length-drop_eq t.id (all_templates p) d h.0),
        rest.1 ∙ ap ok (omega arith),
      )
