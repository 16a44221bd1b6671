-- ===== src/FixedString/Tests.antt =====
-- core/fixed_string.hpp on a literal of two letters.
use sekkeizu.Base.{◌≡◌, some, [], ◌∷◌, arith}
use sekkeizu.FixedString.Text.{FixedString, fixed_string, c_str, c_str-fixed_string}

c_str-fixed_string_example :
    (f : FixedString) × (fixed_string 2 (104 ∷ 105 ∷ 0 ∷ []) ≡ some f) × (c_str f ≡ 104 ∷ 105 ∷ [])
c_str-fixed_string_example =
    c_str-fixed_string (104 ∷ 105 ∷ []) (0 ∷ []) (ground arith, (ground arith, tt))
