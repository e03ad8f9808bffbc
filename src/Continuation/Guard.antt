-- ===== src/Continuation/Guard.antt =====
-- What the collection of vmm/sandbox/src/template/continuation.rs leaves alone.
use kuasar.Prelude.{
  ℕ, String, ◌≡◌, Bool, true, false, not, ◌&&◌, ◌||◌, Option, none, some, List, [], ◌∷◌, ◌==◌,
  ==_iff, any, arith, Bool-cases, Option-cases, inl, inr, if◌then◌else◌,
}
use kuasar.Prelude.Exec.{Keeps, bind-Keeps}
use kuasar.Prelude.Map
use kuasar.Prelude.Map.{Map, get-put, get-delete, keys}
use kuasar.Template.Disk.{TemplateDir}
use kuasar.Template.Types.{PooledTemplate}
use kuasar.Continuation.Store.{
  Store, StoreIo, entries_of, entry_at, write_entry, delete_entry, remove_entry,
}
use kuasar.Continuation.Scan.{
  gc_entry, gc_entries, gc_pods, gc_pod, gc_orphaned_consumed, remove_empty_pod,
}

pub entry_at-write_entry :
    (pod name pod' name' : String) (t : TemplateDir) (s : Store)
    → entry_at (pod', name') (write_entry (pod, name) t s)
      ≡ (if pod == pod' && name == name' then some t else entry_at (pod', name') s)
unfolding entry_at write_entry
entry_at-write_entry pod name pod' name' t s = ground (
  arith,
  ==_iff pod pod',
  get-put pod pod' (Map.put name t (entries_of pod s)) s,
  get-put name name' t (entries_of pod s),
)

entry_at-delete_entry :
    (pod name pod' name' : String) (s : Store)
    → entry_at (pod', name') (delete_entry (pod, name) s)
      ≡ (if pod == pod' && name == name' then none else entry_at (pod', name') s)
unfolding entry_at delete_entry
entry_at-delete_entry pod name pod' name' s = ground (
  arith,
  ==_iff pod pod',
  get-put pod pod' (Map.delete name (entries_of pod s)) s,
  get-delete name name' (entries_of pod s),
)

abbrev active_metadata : List String → Option PooledTemplate → Bool
active_metadata active none = true
active_metadata active (some t) = any (λ id. id == t.id) active

-- The entry is not consumed, or its metadata does not parse, or names a template in use.
abbrev pub protected : List String → TemplateDir → Bool
protected active dir = not dir.consumed || active_metadata active dir.saved

module _ (io : StoreIo) (pod' name' : String) (dir : TemplateDir) where
  remove_entry-other :
      (pod name : String) (s : Store)
      → (pod == pod' && name == name') ≡ false
      → entry_at (pod', name') s ≡ some dir
      → entry_at (pod', name') (remove_entry io (pod, name) s).1 ≡ some dir
  unfolding remove_entry
  remove_entry-other pod name s h e = elim (Option-cases (entry_at (pod, name) s)) [
    | inl e' ↦ ground arith
    | inr (t, e') ↦ elim (Option-cases (io.remove_fault (pod, name))) [
      | inl f ↦ ground (arith, entry_at-delete_entry pod name pod' name' s)
      | inr (left, f) ↦ ground (arith, entry_at-write_entry pod name pod' name' (left t) s)
    ]
  ]

  module _ (active : List String) (h : protected active dir ≡ true) where
    gc_entry-keeps :
        (pod name : String) (n : ℕ) (s : Store)
        → entry_at (pod', name') s ≡ some dir
        → entry_at (pod', name') (gc_entry io active (pod, name) n s).1 ≡ some dir
    unfolding gc_entry
    gc_entry-keeps pod name n s e = elim (Bool-cases (pod == pod' && name == name')) [
      | inr other ↦ ground (arith, remove_entry-other pod name s other)
      | inl same ↦ ground (arith, ==_iff pod pod', ==_iff name name')
    ]

    gc_entries-Keeps :
        (pod : String) (names : List String) (n : ℕ)
        → Keeps (λ s. entry_at (pod', name') s ≡ some dir) (gc_entries io active pod names n)
    unfolding gc_entries
    gc_entries-Keeps pod [] n = record { from = λ s e. ground arith }
    gc_entries-Keeps pod (name ∷ names) n = record {
      from = λ s e.
          let (n', s') = gc_entry io active (pod, name) n s in
          ground (arith, (gc_entries-Keeps pod names n').from s' (gc_entry-keeps pod name n s e));
    }

    remove_empty_pod-Keeps :
        (pod : String) (n : ℕ)
        → Keeps (λ s. entry_at (pod', name') s ≡ some dir) (remove_empty_pod io pod n)
    unfolding remove_empty_pod entry_at Map.get
    remove_empty_pod-Keeps pod n = record {
      from = λ s e. ground (arith, ==_iff pod pod', get-delete pod pod' s);
    }

    gc_pod-Keeps :
        (pod : String) (n : ℕ)
        → Keeps (λ s. entry_at (pod', name') s ≡ some dir) (gc_pod io active pod n)
    gc_pod-Keeps pod n = record {
      from = λ s e.
          let names = keys (entries_of pod s) in
          ground (
            arith,
            (bind-Keeps (gc_entries io active pod names n) (remove_empty_pod io pod)
                  (gc_entries-Keeps pod names n) (remove_empty_pod-Keeps pod)).from
                s e,
          );
    }

    gc_pods-Keeps :
        (pods : List String) (n : ℕ)
        → Keeps (λ s. entry_at (pod', name') s ≡ some dir) (gc_pods io active pods n)
    unfolding gc_pods
    gc_pods-Keeps [] n = record { from = λ s e. ground arith }
    gc_pods-Keeps (pod ∷ pods) n = record {
      from = λ s e. ground (
        arith,
        (bind-Keeps (gc_pod io active pod n) (gc_pods io active pods) (gc_pod-Keeps pod n)
              (gc_pods-Keeps pods)).from
            s e,
      );
    }

-- Whatever fails, a collection changes nothing in an entry that is not consumed, whose metadata
-- does not parse, or whose template is in use.
pub gc-protected :
    (io : StoreIo) (active : List String) (pod name : String) (dir : TemplateDir) (s : Store)
    → entry_at (pod, name) s ≡ some dir
    → protected active dir ≡ true
    → entry_at (pod, name) (gc_orphaned_consumed io active s).1 ≡ some dir
unfolding gc_orphaned_consumed
gc-protected io active pod name dir s e h =
    ground (arith, (gc_pods-Keeps io pod name dir active h (keys s) 0).from s e)
