-- ===== src/FixedString/Text.antt =====
-- `fixed_string` of core/fixed_string.hpp. Memory is a list of bytes.
use sekkeizu.Base.{
  ℕ, zero, suc, ◌≡◌, ◌≢◌, refl, ap, Option, none, some, List, [], ◌∷◌, ◌++◌, All, length,
  if◌then◌else◌, ◌==◌, ==_ne,
}

-- `buf`, which has N + 1 bytes.
pub record FixedString : Type 0 where
  pub buf : List ℕ

-- The loop over `buf[i] = s[i]`, in a buffer of zeros; `none` reads behind the memory at `s`.
unfoldable pub copied : ℕ → List ℕ → Option (List ℕ)
copied zero s = some (0 ∷ [])
copied (suc n) [] = none
copied (suc n) (c ∷ s) = elim (copied n s) [ none ↦ none | some buf ↦ some (c ∷ buf) ]

unfoldable pub fixed_string : ℕ → List ℕ → Option FixedString
unfolding copied
fixed_string n s = elim (copied n s) [ none ↦ none | some buf ↦ some (record { buf = buf }) ]

-- What a function on C strings reads: the bytes before the first 0.
abbrev until_zero : List ℕ → List ℕ
until_zero [] = []
until_zero (c ∷ s) = if c == 0 then [] else c ∷ until_zero s

unfoldable pub c_str : FixedString → List ℕ
c_str f = until_zero f.buf

copied-length : (s rest : List ℕ) → copied (length s) (s ++ rest) ≡ some (s ++ 0 ∷ [])
unfolding copied
copied-length [] rest = refl
copied-length (c ∷ s) rest = rw (copied-length s rest) refl

until_zero-append : (s : List ℕ) → All (λ c. c ≢ 0) s → until_zero (s ++ 0 ∷ []) ≡ s
until_zero-append [] a = refl
until_zero-append (c ∷ s) a = rw (==_ne c 0 a.0) (ap (λ t. c ∷ t) (until_zero-append s a.1))

-- A literal without a byte 0 is read back from its fixed string as it was, whatever the memory
-- behind the literal has.
pub c_str-fixed_string :
    (s rest : List ℕ)
    → All (λ c. c ≢ 0) s
    → (f : FixedString) × (fixed_string (length s) (s ++ rest) ≡ some f) × (c_str f ≡ s)
unfolding fixed_string c_str
c_str-fixed_string s rest a = (
  record { buf = s ++ 0 ∷ [] },
  rw (copied-length s rest, fixed_string) refl,
  until_zero-append s a,
)
