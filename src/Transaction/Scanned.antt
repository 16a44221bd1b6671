-- ===== src/Transaction/Scanned.antt =====
-- The loop of `get_pending_operations` in database/transaction.hpp as a whole: it visits the window
-- in order and ends at its end, or at an entry that blocks it.
use sekkeizu.Base.{
  ℕ, zero, suc, ◌+◌, ◌^◌, ◌≤◌, ◌<◌, ◌≡◌, ◌≢◌, refl, sym, ap, ◌∙◌, ◌⊎◌, inl, inr, Bool, false,
  Option, none, some, arith, Bool-cases, ==_ne, distance64, subst,
}
use sekkeizu.Transaction.Types.{Dependency, Info, Collection}
use sekkeizu.Transaction.Pending.{
  Scan, Visit, stop_here, pass_by, take_callable, take_operation, visit, act, scan, scan_start,
}
use sekkeizu.Transaction.Window.{IsWaiting, payload, operations, callables, waiting-some}
use sekkeizu.Transaction.Progress.{
  Progress, Blocks, pass_by-Progress, take_callable-Progress, take_operation-Progress,
  stop_here-Progress,
}

module _ {B C : Type 0} (met : Dependency → Bool) (f : ℕ → Option (Info B C)) (lo hi counter : ℕ)
    (window : (j : ℕ) → lo ≤ j → j < hi → IsWaiting (f j)) (bound : hi < 2 ^ 64) where
  abbrev At : Scan B C → Type 0
  At = Progress met f lo hi counter

  -- The window has been walked, or its next entry blocks the loop.
  abbrev pub Ends : Scan B C → Type 0
  Ends s =
      At s
      × ((s.id ≡ hi)
          ⊎ ((s.id < hi) × (t : Info B C) × (f s.id ≡ some t) × Blocks met f lo hi counter s t))

  scan-stop :
      (fuel : ℕ) (s : Scan B C) (t : Info B C)
      → s.id ≢ hi
      → s.transactions s.id ≡ some t
      → visit met s.has_non_callable s.has_callable t ≡ stop_here
      → scan met hi (suc fuel) s ≡ act stop_here s
  unfolding scan
  scan-stop fuel s t h at e = ground (arith, ==_ne s.id hi h)

  scan-go :
      (fuel : ℕ) (s : Scan B C) (t : Info B C) (v : Visit)
      → s.id ≢ hi
      → s.transactions s.id ≡ some t
      → visit met s.has_non_callable s.has_callable t ≡ v
      → v ≢ stop_here
      → scan met hi (suc fuel) s ≡ scan met hi fuel (act v s)
  unfolding scan
  scan-go fuel s t v h at e n = ground (arith, ==_ne s.id hi h)

  id-act :
      (s : Scan B C) (v : Visit) (fuel : ℕ)
      → v ≢ stop_here
      → s.id + suc fuel ≡ hi
      → (act v s).id + fuel ≡ hi
  unfolding act
  id-act s stop_here fuel n e = absurd (n refl)
  id-act s v fuel n e = omega arith

  module _ (s : Scan B C) (p : At s) (small : s.id < hi) (t : Info B C)
      (here : f s.id ≡ some t) where
    abbrev chosen : Visit
    chosen = visit met s.has_non_callable s.has_callable t

    takes : (v : Visit) → chosen ≡ v → At (act v s) → At (act chosen s)
    takes v e p' = subst (λ w. At (act w s)) (sym e) p'

    stops : chosen ≡ stop_here → At (act chosen s)
    stops e = takes stop_here e (stop_here-Progress met f lo hi counter s p small bound t here)

    -- The round that the tests choose keeps what is known.
    act-At :
        t.pending ≡ false
        → t.done ≡ false
        → (d : Option Dependency) (c : Option C) → t.dependency ≡ d
        → t.callable ≡ c
        → At (act chosen s)
    unfolding visit
    act-At quiet fresh (some d) c e q = elim (Bool-cases (met d)) [
      | inl m ↦
          takes pass_by (ground arith)
            (pass_by-Progress met f lo hi counter s p small bound t here d e m)
      | inr m ↦ stops (ground arith)
    ]
    act-At quiet fresh none (some c) e q = elim (Bool-cases s.has_non_callable) [
      | inl m ↦ stops (ground arith)
      | inr m ↦
          takes take_callable (ground arith)
            (take_callable-Progress met f lo hi counter s p small bound t here c e q m)
    ]
    act-At quiet fresh none none e q = elim (Bool-cases s.has_callable) [
      | inl m ↦ stops (ground arith)
      | inr m ↦
          takes take_operation (ground arith)
            (take_operation-Progress met f lo hi counter s p small bound t here e q m)
    ]

    stop-Blocks :
        t.pending ≡ false
        → t.done ≡ false
        → visit met s.has_non_callable s.has_callable t ≡ stop_here
        → Blocks met f lo hi counter s t
    unfolding visit
    stop-Blocks quiet fresh e = ground (arith, p.some_operation, p.some_callable, p.one_kind)

    halt-Ends : t.pending ≡ false → t.done ≡ false → chosen ≡ stop_here → Ends (act stop_here s)
    unfolding act
    halt-Ends quiet fresh e = (
      stop_here-Progress met f lo hi counter s p small bound t here,
      inr (small, t, here, stop-Blocks quiet fresh e),
    )

  Visit-cases : (v : Visit) → (v ≡ stop_here) ⊎ (v ≢ stop_here)
  Visit-cases stop_here = inl refl
  Visit-cases v = inr (λ e. cc)

  scan-Ends : (fuel : ℕ) (s : Scan B C) → At s → s.id + fuel ≡ hi → Ends (scan met hi fuel s)
  scan-Ends zero s p e = unfold scan in (p, inl (omega arith))
  scan-Ends (suc fuel) s p e =
      let small : s.id < hi = omega arith in
      let ne : s.id ≢ hi = omega arith in
      let w = waiting-some (f s.id) (window s.id (omega (arith, p.visited)) small) in
      let t = w.0 in
      let v = visit met s.has_non_callable s.has_callable t in
      let at : s.transactions s.id ≡ some t = p.ahead s.id (omega arith) ∙ w.1 in
      let kept : At (act v s) = act-At s p small t w.1 w.2 w.3 t.dependency t.callable refl refl in
      elim (Visit-cases v) [
        | inl halt ↦
            subst Ends (sym (scan-stop fuel s t ne at halt))
              (halt-Ends s p small t w.1 w.2 w.3 halt)
        | inr go ↦
            subst Ends (sym (scan-go fuel s t v ne at refl go))
              (scan-Ends fuel (act v s) kept (id-act s v fuel go e))
      ]

  -- The loop as it is started, with as much fuel as there are rounds.
  pub scan_start-Ends :
      (info : Collection B C)
      → info.transactions ≡ f
      → info.first_id ≡ lo
      → lo ≤ hi
      → Ends (scan met hi (distance64 lo hi) (scan_start counter info))
  unfolding operations callables
  scan_start-Ends info e q h =
      scan-Ends (distance64 lo hi) (scan_start counter info) start (omega arith)
    where
      start : At (scan_start counter info)
      start = record {
        k = 0;
        visited = omega arith;
        in_range = omega arith;
        ahead = λ j _. ap (λ (g : ℕ → Option (Info B C)). g j) e;
        behind = λ j _. ap (λ (g : ℕ → Option (Info B C)). g j) e;
        same = λ j. ap (λ (g : ℕ → Option (Info B C)). payload (g j)) e;
        taken = refl;
        passed = λ j t d a b. absurd (omega arith);
        counted = omega arith;
        kinds = tt;
        one_kind = λ h. cc;
        untaken = λ _ _. refl;
        some_operation = λ h. cc;
        some_callable = λ h. cc;
      }
