-- ===== src/Container/Unwinding.antt =====
-- What a chain of handlers undoes (vmm/sandbox/src/container/handler/mod.rs).
use mathlib.Core.List.{reverse-append, reverse-cons}
use kuasar.Prelude.{
  ℕ, ◌+◌, ◌-◌, ◌≡◌, refl, ap, ◌∙◌, some, List, [], ◌∷◌, ◌++◌, arith, drop, drop-length, length,
  length-append, reverse,
}
use kuasar.Container.Chain.{Handler, handle_chain, rollback_all, run_handlers, settled}
use kuasar.Prelude.Exec.{ok, err}

length-reverse : {A : Type 0} (xs : List A) → length (reverse xs) ≡ length xs
length-reverse [] = refl
length-reverse (x ∷ xs) =
    ap length (reverse-cons x xs)
    ∙ omega (arith, length-append (reverse xs) (x ∷ []), length-reverse xs)

module _ {E S : Type 0} where
  -- The handlers succeed one after the other.
  abbrev pub Passes : List (Handler E S) → S → S → Type 0
  Passes [] s t = s ≡ t
  Passes (h ∷ hs) s t = (u : S) × ((h.handle s ≡ (ok tt, u)) × Passes hs u t)

  -- The handlers that are rolled back, the last one first: those that succeeded, or, where none
  -- did, the one that failed.
  abbrev pub rolled_back : List (Handler E S) → Handler E S → List (Handler E S)
  rolled_back [] bad = bad ∷ []
  rolled_back (h ∷ hs) bad = reverse (h ∷ hs)

  abbrev last_index : ℕ → ℕ → List (Handler E S) → ℕ
  last_index i finished [] = finished
  last_index i finished (h ∷ hs) = last_index (i + 1) i hs

  last_index_cons : (i : ℕ) (hs : List (Handler E S)) → last_index (i + 1) i hs ≡ i + length hs
  last_index_cons i [] = omega arith
  last_index_cons i (h ∷ hs) = omega (arith, last_index_cons (i + 1) hs)

  run-fails :
      (i f : ℕ) (done rest : List (Handler E S)) (bad : Handler E S) (s : S) {t u : S} {e : E}
      → Passes done s t
      → bad.handle t ≡ (err e, u)
      → run_handlers i f (done ++ bad ∷ rest) s
        ≡ record { failure = some e; finished_index = last_index i f done; state = u }
  unfolding run_handlers
  run-fails i f [] rest bad s p b = rw p (rw b)
  run-fails i f (h ∷ done) rest bad s (v, p) b = rw p.0 (run-fails (i + 1) i done rest bad v p.1 b)

  undone :
      (done rest : List (Handler E S)) (bad : Handler E S)
      → drop (length (done ++ bad ∷ rest) - 1 - last_index 0 0 done) (reverse (done ++ bad ∷ rest))
        ≡ rolled_back done bad
  undone [] rest bad =
      ap (λ n. drop n (reverse (bad ∷ rest))) (omega (arith, length-reverse rest))
      ∙ ap (drop (length (reverse rest))) (reverse-cons bad rest)
      ∙ drop-length (reverse rest) (bad ∷ [])
  undone (h ∷ done) rest bad =
      let all = h ∷ (done ++ bad ∷ rest) in
      ap (λ n. drop n (reverse all))
        (omega (
          arith,
          length-append done (bad ∷ rest),
          length-reverse (bad ∷ rest),
          last_index_cons 0 done,
        ))
      ∙ ap (drop (length (reverse (bad ∷ rest)))) (reverse-append (h ∷ done) (bad ∷ rest))
      ∙ drop-length (reverse (bad ∷ rest)) (reverse (h ∷ done))

  -- If the handlers of a chain succeed up to one that fails, the chain answers its error, and the
  -- handlers before it are rolled back, the last one first; if the first handler fails, it is itself
  -- rolled back, although it did not finish.
  pub handle_chain-unwinds :
      (done rest : List (Handler E S)) (bad : Handler E S) (s : S) {t u : S} {e : E}
      → Passes done s t
      → bad.handle t ≡ (err e, u)
      → handle_chain (done ++ bad ∷ rest) s ≡ (err e, rollback_all (rolled_back done bad) u)
  unfolding handle_chain
  handle_chain-unwinds done rest bad s {t} {u} {e} p b =
      let hs = done ++ bad ∷ rest in
      ap (λ q. settled hs q q.failure) (run-fails 0 0 done rest bad s p b)
      ∙ ap (λ back. (err e, rollback_all back u)) (undone done rest bad)
