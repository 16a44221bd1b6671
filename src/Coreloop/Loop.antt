-- ===== src/Coreloop/Loop.antt =====
-- The main loop that `start` of core/coreloop.hpp pushes. A time point is a number of nanoseconds,
-- a `base_time` a number of milliseconds.
use sekkeizu.Base.{
  ℕ, ◌+◌, ◌-◌, ◌*◌, ◌/◌, ◌≤◌, ◌≡◌, Bool, true, Option, none, some, List, [], ◌∷◌, arith, ltb,
  if◌then◌else◌,
}
use sekkeizu.Coreloop.Hooks.{Plugin, call_pre_tick_proxy, call_tick_proxy, call_post_tick_proxy}

-- Milliseconds with a sign: `negsuc n` is -(n + 1).
pub data ℤ : Type 0 where
  pos : ℕ → ℤ
  negsuc : ℕ → ℤ

-- `a - b` of two unsigned durations.
abbrev pub difference : ℕ → ℕ → ℤ
difference a b = if ltb a b then negsuc (b - a - 1) else pos (a - b)

infixl 40 ◌+ℤ◌
abbrev pub ◌+ℤ◌ : ℤ → ℤ → ℤ
pos a +ℤ pos b = pos (a + b)
pos a +ℤ negsuc b = difference a (b + 1)
negsuc a +ℤ pos b = difference b (a + 1)
negsuc a +ℤ negsuc b = negsuc (a + b + 1)

abbrev pub below : ℤ → ℕ → Bool
below (pos a) b = ltb a b
below (negsuc a) b = true

-- `b - a` where it is not negative.
abbrev pub minus : ℕ → ℤ → ℕ
minus b (pos a) = b - a
minus b (negsuc a) = b + a + 1

abbrev pub heart_beat : ℕ
heart_beat = 50

-- `duration_cast<milliseconds>` of the time between two readings of the steady clock.
unfoldable pub base_time : ℕ → ℕ → ℕ
base_time earlier later = (later - earlier) / 1000000

-- `update_time`, from the time that the plugins took and the mean rounded up.
unfoldable pub update_time : ℕ → ℕ → ℤ
update_time took diff_mean = pos took +ℤ difference diff_mean heart_beat

-- How long the loop sleeps, if it does.
unfoldable pub sleep_time : ℕ → ℕ → Option ℕ
unfolding update_time
sleep_time took diff_mean =
    if below (update_time took diff_mean) heart_beat
    then some (minus heart_beat (update_time took diff_mean))
    else none

-- The arithmetic on `float`: `0.95f * mean + 0.05f * diff`, and `ceil`.
pub record FloatApi (F : Type 0) : Type 0 where
  pub smooth : F → ℕ → F
  pub ceil : F → ℕ

-- The attributes that the loop keeps, with those of the plugins.
pub record Core (F W : Type 0) : Type 0 where
  pub now : ℕ
  pub diff_mean : F
  pub plugins : W

-- What the constructor sets of them, with its reading of the clock.
unfoldable pub new_core : {F W : Type 0} → ℕ → F → W → Core F W
new_core now zero_mean plugins = record { now = now; diff_mean = zero_mean; plugins = plugins }

-- The readings of the clock in one iteration: at its start, and before it sleeps.
pub record Readings : Type 0 where
  pub started : ℕ
  pub ticked : ℕ

module _ {F W : Type 0} (floats : FloatApi F) (plugins : List (Plugin W)) where
  -- One iteration, with the time that it sleeps.
  unfoldable pub iterate : Readings → Core F W → Core F W × Option ℕ
  unfolding base_time sleep_time call_pre_tick_proxy call_tick_proxy call_post_tick_proxy
  iterate r core =
      let diff = base_time core.now r.started in
      let diff_mean = floats.smooth core.diff_mean diff in
      (
        record {
          now = r.started;
          diff_mean = diff_mean;
          plugins =
              call_post_tick_proxy plugins
                (call_tick_proxy diff plugins (call_pre_tick_proxy plugins core.plugins));
        },
        sleep_time (base_time r.started r.ticked) (floats.ceil diff_mean),
      )

  -- The loop, over the iterations that begin before `_running` is false.
  unfoldable pub run : List Readings → Core F W → Core F W
  unfolding iterate
  run [] core = core
  run (r ∷ readings) core = run readings (iterate r core).0

-- The loop sleeps for just as long as the time of the tick and the mean period are short of two
-- heart beats, and it does not sleep when they are not: a mean above the heart beat shortens it.
pub sleep_time-balances :
    (took diff_mean : ℕ)
    → (((s : ℕ) → sleep_time took diff_mean ≡ some s → took + diff_mean + s ≡ 2 * heart_beat)
        × (sleep_time took diff_mean ≡ none → 2 * heart_beat ≤ took + diff_mean))
unfolding sleep_time update_time
sleep_time-balances took diff_mean = (λ s h. ground arith, λ h. ground arith)
