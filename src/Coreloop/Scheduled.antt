-- ===== src/Coreloop/Scheduled.antt =====
-- core/coreloop_scheduled_tick.hpp: times are numbers of `base_time`s, far below the 2^63 that they hold.
use sekkeizu.Base.{
  ℕ, ◌+◌, ◌≤◌, ◌<◌, ◌≡◌, refl, true, false, Option, none, some, List, [], ◌∷◌, All, arith, ltb,
  if◌then◌else◌, subst, sym, Bool-cases, inl, inr,
}

-- `tick`: what `_elapsed` is after it, and the time that `scheduled_tick` was called with, if it was.
unfoldable pub scheduled_tick : ℕ → ℕ → ℕ → ℕ × Option ℕ
scheduled_tick base_time_per_tick diff elapsed =
    if ltb base_time_per_tick (elapsed + diff)
    then (0, some (elapsed + diff))
    else (elapsed + diff, none)

-- The ticks of several iterations, with the calls of `scheduled_tick` in order.
unfoldable pub scheduled_ticks : ℕ → List ℕ → ℕ → ℕ × List ℕ
unfolding scheduled_tick
scheduled_ticks base_time_per_tick [] elapsed = (elapsed, [])
scheduled_ticks base_time_per_tick (diff ∷ diffs) elapsed =
    let once = scheduled_tick base_time_per_tick diff elapsed in
    let rest = scheduled_ticks base_time_per_tick diffs once.0 in
    (rest.0, elim once.1 [ none ↦ rest.1 | some time ↦ time ∷ rest.1 ])

abbrev pub sum : List ℕ → ℕ
sum [] = 0
sum (x ∷ xs) = x + sum xs

-- No time is lost or counted twice: the times of the calls, with what has elapsed since the last of
-- them, are the times of the ticks.
pub scheduled_ticks-sum :
    (per_tick : ℕ) (diffs : List ℕ) (elapsed : ℕ)
    → let r = scheduled_ticks per_tick diffs elapsed in r.0 + sum r.1 ≡ elapsed + sum diffs
unfolding scheduled_ticks scheduled_tick
scheduled_ticks-sum per_tick [] elapsed = omega arith
scheduled_ticks-sum per_tick (diff ∷ diffs) elapsed = ground (
  arith,
  scheduled_ticks-sum per_tick diffs (elapsed + diff),
  scheduled_ticks-sum per_tick diffs 0,
)

scheduled_tick_late :
    (per_tick diff elapsed : ℕ)
    → ltb per_tick (elapsed + diff) ≡ true
    → scheduled_tick per_tick diff elapsed ≡ (0, some (elapsed + diff))
unfolding scheduled_tick
scheduled_tick_late per_tick diff elapsed late = rw late refl

scheduled_tick_early :
    (per_tick diff elapsed : ℕ)
    → ltb per_tick (elapsed + diff) ≡ false
    → scheduled_tick per_tick diff elapsed ≡ (elapsed + diff, none)
unfolding scheduled_tick
scheduled_tick_early per_tick diff elapsed early = rw early refl

-- A call gets more than the period, and no more than the period with the longest tick.
pub IsTimely : ℕ → ℕ → ℕ → Type 0
IsTimely per_tick longest time = (per_tick < time) × (time ≤ per_tick + longest)

-- Between ticks no more than the period has elapsed, and each call of `scheduled_tick` is timely,
-- when no tick is longer than `longest`: it gets more than the period, and no more than the period
-- with `longest`.
pub scheduled_ticks-IsTimely :
    (per_tick longest : ℕ) (diffs : List ℕ) (elapsed : ℕ)
    → All (λ diff. diff ≤ longest) diffs
    → elapsed ≤ per_tick
    → let r = scheduled_ticks per_tick diffs elapsed in
      (r.0 ≤ per_tick) × All (IsTimely per_tick longest) r.1
unfolding scheduled_ticks scheduled_tick IsTimely
scheduled_ticks-IsTimely per_tick longest [] elapsed a e = (e, tt)
scheduled_ticks-IsTimely per_tick longest (diff ∷ diffs) elapsed a e =
    let After : ℕ × Option ℕ → Type 0 = λ o.
      let rest = scheduled_ticks per_tick diffs o.0 in
      (rest.0 ≤ per_tick)
      × All (IsTimely per_tick longest) (elim o.1 [ none ↦ rest.1 | some time ↦ time ∷ rest.1 ]) in
    elim (Bool-cases (ltb per_tick (elapsed + diff))) [
      | inl late ↦
          let rest = scheduled_ticks-IsTimely per_tick longest diffs 0 a.1 (omega arith) in
          let now : IsTimely per_tick longest (elapsed + diff) = ground (arith, a.0) in
          subst After (sym (scheduled_tick_late per_tick diff elapsed late)) (rest.0, (now, rest.1))
      | inr early ↦
          subst After (sym (scheduled_tick_early per_tick diff elapsed early))
            (scheduled_ticks-IsTimely per_tick longest diffs (elapsed + diff) a.1 (ground arith))
    ]
