-- ===== src/Bson/Hash.antt =====
-- `hash_of_c_string` of database/bson_reflection_struct.hpp: FNV-1a, on a `char` with a sign.
use sekkeizu.Base.{
  ℕ, ◌+◌, ◌*◌, ◌-◌, ◌%◌, ◌^◌, ◌<◌, ◌≡◌, refl, List, [], ◌∷◌, ◌++◌, arith, bit_xor, if◌then◌else◌,
  ltb, ◌==◌, ◌≢◌, All,
}

-- A byte as `char`, converted to uint32_t: above 127 it is negative, and the high bits are set.
abbrev pub extend : ℕ → ℕ
extend c = if ltb c 128 then c else c + 2 ^ 32 - 256

-- The loop, up to the byte 0 that ends the string.
unfoldable pub hash_from : ℕ → List ℕ → ℕ
hash_from hash [] = hash
hash_from hash (c ∷ str) =
    let rest = hash_from (bit_xor hash (extend c) * 16777619 % 2 ^ 32) str in
    if c == 0 then hash else rest

unfoldable pub hash_of_c_string : List ℕ → ℕ
unfolding hash_from
hash_of_c_string = hash_from 2166136261

hash_from-ends :
    (hash : ℕ) (key rest : List ℕ)
    → All (λ c. c ≢ 0) key
    → hash_from hash (key ++ 0 ∷ rest) ≡ hash_from hash key
unfolding hash_from
hash_from-ends hash [] rest a = refl
hash_from-ends hash (c ∷ key) rest a =
    ground (arith, a.0, hash_from-ends (bit_xor hash (extend c) * 16777619 % 2 ^ 32) key rest a.1)

hash_from-bounds : (hash : ℕ) (key : List ℕ) → hash < 2 ^ 32 → hash_from hash key < 2 ^ 32
unfolding hash_from
hash_from-bounds hash [] h = h
hash_from-bounds hash (c ∷ key) h =
    ground (arith, hash_from-bounds (bit_xor hash (extend c) * 16777619 % 2 ^ 32) key (omega arith))

-- The hash of a key is that of its bytes before the first 0, whatever lies behind it in memory, and
-- fits into 32 bits.
pub hash_of_c_string-ends :
    (key rest : List ℕ)
    → All (λ c. c ≢ 0) key
    → (hash_of_c_string (key ++ 0 ∷ rest) ≡ hash_of_c_string key) × (hash_of_c_string key < 2 ^ 32)
unfolding hash_of_c_string
hash_of_c_string-ends key rest a =
    (hash_from-ends 2166136261 key rest a, hash_from-bounds 2166136261 key (omega arith))
