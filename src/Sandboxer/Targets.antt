-- ===== src/Sandboxer/Targets.antt =====
-- What the annotations of a pod give the workloads of a warm-forked sandbox
-- (`parse_warm_fork_params` of vmm/sandbox/src/sandbox.rs).
use kuasar.Prelude.{
  String, true, false, ◌≡◌, ◌↔◌, refl, sym, ap, ◌∙◌, subst, Option, none, some, List, [], ◌∷◌, ◌++◌,
  ◌==◌, ==_iff, map, All, arith, inl, inr, Option-cases, if◌then◌else◌,
}
use kuasar.Prelude.Exec.{Result-cases, ok}
use kuasar.Prelude.Map
use kuasar.Prelude.Map.{Map, get-put}
use kuasar.Prelude.Split.{
  split_commas, strip_prefix, strip_prefix-append, strip_prefix-some, trim, IsCons,
  split_commas-IsCons,
}
use kuasar.Prelude.Text.{append}
use kuasar.Prelude.Totals.{IsUnique}
use kuasar.Sandbox.State.{WarmForkParams}
use kuasar.Sandboxer.Params.{
  some_names, collect_names, env_over, seen_in, container_key, task_env_prefix, target_of, pod_env,
  parse_warm_fork_params, parse_warm_fork_container_names, warm_fork_containers_annotation,
}
use kuasar.Template.Types.{WarmForkTarget}

-- The pieces between the commas, without the white space around them.
abbrev pub pieces : String → List String
pieces v = map trim (split_commas v)

abbrev pub Distinct : List String → Type 0
Distinct [] = Unit {0}
Distinct (n ∷ ns) = (seen_in n ns ≡ false) × Distinct ns

abbrev pub Named : List String → Type 0
Named ns = All (λ n. (n == "") ≡ false) ns

seen_in-append :
    (n : String) (xs ys : List String)
    → seen_in n (xs ++ ys) ≡ (if seen_in n xs then true else seen_in n ys)
seen_in-append n [] ys = refl
seen_in-append n (x ∷ xs) ys = ground (arith, seen_in-append n xs ys)

Distinct-push :
    (n : String) (ns : List String) → seen_in n ns ≡ false → Distinct ns → Distinct (ns ++ n ∷ [])
Distinct-push n [] s d = (refl, tt)
Distinct-push n (m ∷ ns) s d =
    ground (arith, Distinct-push n ns, seen_in-append m ns (n ∷ []), ==_iff m n, ==_iff n m)

Distinct-fresh :
    (n : String) (acc ns : List String) → Distinct (acc ++ n ∷ ns) → seen_in n acc ≡ false
Distinct-fresh n [] ns d = refl
Distinct-fresh n (m ∷ acc) ns d =
    ground
      (arith, Distinct-fresh n acc ns d.1, seen_in-append m acc (n ∷ ns), ==_iff m n, ==_iff n m)

append_one : (n : String) (acc ns : List String) → (acc ++ n ∷ []) ++ ns ≡ acc ++ n ∷ ns
append_one n [] ns = refl
append_one n (a ∷ acc) ns = ap (λ l. a ∷ l) (append_one n acc ns)

append-nil : (acc : List String) → acc ++ [] ≡ acc
append-nil [] = refl
append-nil (a ∷ acc) = ap (λ l. a ∷ l) (append-nil acc)

collect_names-ok :
    (acc raws : List String) {ns : List String}
    → Distinct acc
    → collect_names acc raws ≡ ok ns
    → (ns ≡ acc ++ map trim raws) × Named (map trim raws) × Distinct ns
unfolding collect_names
collect_names-ok acc [] {ns} d h =
    (ground (arith, append-nil acc), tt, subst Distinct (ground arith) d)
collect_names-ok acc (raw ∷ raws) {ns} d h = ground (
  arith,
  append_one (trim raw) acc (map trim raws),
  Distinct-push (trim raw) acc,
  collect_names-ok (acc ++ trim raw ∷ []) raws {ns = ns},
)

collect_names-accepts :
    (acc raws : List String)
    → Distinct (acc ++ map trim raws)
    → Named (map trim raws)
    → collect_names acc raws ≡ ok (acc ++ map trim raws)
unfolding collect_names
collect_names-accepts acc [] d h = ap ok (sym (append-nil acc))
collect_names-accepts acc (raw ∷ raws) d h = ground (
  arith,
  Distinct-fresh (trim raw) acc (map trim raws) d,
  collect_names-accepts (acc ++ trim raw ∷ []) raws
      (subst Distinct (sym (append_one (trim raw) acc (map trim raws))) d) h.1,
  append_one (trim raw) acc (map trim raws),
)

some_names-ok :
    (raws : List String) → IsCons raws → some_names (map trim raws) ≡ ok (some (map trim raws))
some_names-ok (r ∷ raws) h = refl
some_names-ok [] h = absurd h

some_names-inj : (ns : List String) {ms : List String} → some_names ns ≡ ok (some ms) → ns ≡ ms
some_names-inj [] h = ground arith
some_names-inj (n ∷ ns) h = ground arith

-- If the pod has the annotation of its warm-fork containers, the list is accepted with some names
-- exactly if these are the pieces between the commas without the white space around them, no name
-- is empty, and no name comes twice.
pub parse_warm_fork_container_names_iff :
    (a : Map String) (v : String) (ns : List String)
    → Map.get warm_fork_containers_annotation a ≡ some v
    → (parse_warm_fork_container_names a ≡ ok (some ns))
      ↔ ((ns ≡ pieces v) × Named ns × Distinct ns)
unfolding parse_warm_fork_container_names
parse_warm_fork_container_names_iff a v ns h = (
  λ e. elim (Result-cases (collect_names [] (split_commas v))) [
    | inl (ms, c) ↦
        let q = some_names-inj ms {ms = ns} (ground arith) in
        let w = collect_names-ok [] (split_commas v) {ns = ms} tt c in
        subst (λ l. (l ≡ pieces v) × Named l × Distinct l) q (w.0, subst Named (sym w.0) w.1, w.2)
    | inr (f, c) ↦ ground arith
  ],
  λ w. ground (
    arith,
    collect_names-accepts [] (split_commas v),
    some_names-ok (split_commas v) (split_commas-IsCons v),
  ),
)

abbrev pub or_before : Option String → Option String → Option String
or_before none o = o
or_before (some v) o = some v

env_over-get :
    (p j : String) (env a : Map String)
    → IsUnique a
    → Map.get j (env_over p env a) ≡ or_before (Map.get (append p j) a) (Map.get j env)
unfolding env_over Map.get Map.contains_key
env_over-get p j env [] u = refl
env_over-get p j env ((k, v) ∷ a) u = elim (Option-cases (strip_prefix k p)) [
  | inl e ↦
      ground (arith, env_over-get p j env a u.1, ==_iff k (append p j), strip_prefix-append j p)
  | inr (s, e) ↦ ground (
    arith,
    env_over-get p j (Map.put s v env) a u.1,
    get-put s j v env,
    ==_iff k (append p j),
    ==_iff s j,
    strip_prefix-append j p,
    strip_prefix-some k p {s = s} e,
  )
]

-- A variable of a workload is the annotation of its container if there is one, else the pod's.
abbrev pub HasEnv : Map String → WarmForkTarget → Type 0
HasEnv a t =
    (j : String)
    → Map.get j t.env_overrides
      ≡ or_before (Map.get (append (container_key t.container_name "/task-env/") j) a)
          (Map.get (append task_env_prefix j) a)

map-container_name :
    (a : Map String) (ns : List String) → map (λ t. t.container_name) (map (target_of a) ns) ≡ ns
unfolding target_of
map-container_name a [] = refl
map-container_name a (n ∷ ns) = ap (λ l. n ∷ l) (map-container_name a ns)

or_before-none : (o : Option String) → or_before o none ≡ o
or_before-none none = refl
or_before-none (some v) = refl

target_of-HasEnv : (a : Map String) (n : String) → IsUnique a → HasEnv a (target_of a n)
unfolding target_of Map.get
target_of-HasEnv a n u j =
    env_over-get (container_key n "/task-env/") j (pod_env a) a u
    ∙ ap (or_before (Map.get (append (container_key n "/task-env/") j) a)) (
        env_over-get task_env_prefix j [] a u
        ∙ or_before-none (Map.get (append task_env_prefix j) a))

targets_of-HasEnv :
    (a : Map String) (ns : List String) → IsUnique a → All (HasEnv a) (map (target_of a) ns)
targets_of-HasEnv a [] u = tt
targets_of-HasEnv a (n ∷ ns) u = (target_of-HasEnv a n u, targets_of-HasEnv a ns u)

some_names-none : (ns : List String) → some_names ns ≡ ok none → ⊥
some_names-none [] h = ground arith
some_names-none (n ∷ ns) h = ground arith

named_or_none :
    (a : Map String) (v : String) {o : Option (List String)}
    → Map.get warm_fork_containers_annotation a ≡ some v
    → parse_warm_fork_container_names a ≡ ok o
    → (ns : List String) × (o ≡ some ns)
unfolding parse_warm_fork_container_names
named_or_none a v {o = some ns} h e = (ns, refl)
named_or_none a v {o = none} h e = elim (Result-cases (collect_names [] (split_commas v))) [
  | inl (ms, c) ↦ absurd (some_names-none ms (ground arith))
  | inr (f, c) ↦ ground arith
]

targets_are :
    (a : Map String) (ns : List String) {params : WarmForkParams}
    → parse_warm_fork_container_names a ≡ ok (some ns)
    → parse_warm_fork_params a ≡ ok params
    → map (target_of a) ns ≡ params.targets
unfolding parse_warm_fork_params
targets_are a ns {params} c e = ground arith

-- If the annotations are a map with unique keys, the pod has the annotation of its warm-fork
-- containers, and the parameters are accepted, then the targets are named by the pieces of the
-- annotation in their order, and a variable of a target's environment is the annotation of its
-- container, or else the annotation of the pod, or else absent.
pub parse_warm_fork_params-targets :
    (a : Map String) (v : String) {params : WarmForkParams}
    → IsUnique a
    → Map.get warm_fork_containers_annotation a ≡ some v
    → parse_warm_fork_params a ≡ ok params
    → (map (λ t. t.container_name) params.targets ≡ pieces v) × All (HasEnv a) params.targets
unfolding parse_warm_fork_params
parse_warm_fork_params-targets a v {params} u h e =
    elim (Result-cases (parse_warm_fork_container_names a)) [
      | inl (o, c) ↦
          let (ns, s) = named_or_none a v h c in
          let c' = c ∙ ap ok s in
          let w = (parse_warm_fork_container_names_iff a v ns h).0 c' in
          subst (λ ts. (map (λ t. t.container_name) ts ≡ pieces v) × All (HasEnv a) ts)
            (targets_are a ns c' e) (map-container_name a ns ∙ w.0, targets_of-HasEnv a ns u)
      | inr (f, c) ↦ ground arith
    ]
