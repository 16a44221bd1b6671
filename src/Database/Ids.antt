-- ===== src/Database/Ids.antt =====
-- `get_potentially_unique_id` of database/database.hpp.
use sekkeizu.Base.{ℕ, add64, inc64}

-- The cipher: `ProcessData` on eight bytes, read as one number, and the state after it.
pub record CipherApi (E : Type 0) : Type 0 where
  pub process_data : E → ℕ → ℕ × E

-- The generator of `database`: the atomic counter, and the cipher.
pub record Generator (E : Type 0) : Type 0 where
  pub counter : ℕ
  pub enc : E

module _ {E : Type 0} (cipher : CipherApi E) where
  -- The id, as the 64 bits of an int64_t, at a reading of the clock in seconds.
  unfoldable pub get_potentially_unique_id : ℕ → Generator E → ℕ × Generator E
  get_potentially_unique_id seconds g =
      let out = cipher.process_data g.enc (add64 g.counter seconds) in
      (out.0, record { counter = inc64 g.counter; enc = out.1 })
