-- ===== src/Base/Words.antt =====
-- Machine words as native numbers below a power of two, with the wrap written out.
use Prim.Native.Nat.{ℕ, ◌+◌, ◌-◌, ◌%◌, ◌^◌, ◌<◌}
use mathlib.Core.Path.{◌≡◌}
use native.Mathlib.Omega.{arith}

-- uint64_t `a + b`, `++a` and `a - 1`.
abbrev pub add64 : ℕ → ℕ → ℕ
add64 a b = (a + b) % 2 ^ 64

abbrev pub inc64 : ℕ → ℕ
inc64 a = (a + 1) % 2 ^ 64

abbrev pub dec64 : ℕ → ℕ
dec64 a = (a + 2 ^ 64 - 1) % 2 ^ 64

-- uint8_t `++a` and `--a`.
abbrev pub inc8 : ℕ → ℕ
inc8 a = (a + 1) % 256

abbrev pub dec8 : ℕ → ℕ
dec8 a = (a + 256 - 1) % 256

-- How often `++a` has to run until `a` is `b`.
abbrev pub distance64 : ℕ → ℕ → ℕ
distance64 a b = (b + 2 ^ 64 - a) % 2 ^ 64

pub distance64_inc :
    (a b n : ℕ) → a < 2 ^ 64 → b < 2 ^ 64 → distance64 a b ≡ n + 1 → distance64 (inc64 a) b ≡ n
distance64_inc a b n ha hb h = omega arith

pub distance64_zero : (a b : ℕ) → a < 2 ^ 64 → b < 2 ^ 64 → distance64 a b ≡ 0 → a ≡ b
distance64_zero a b ha hb h = omega arith
