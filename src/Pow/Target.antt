-- ===== src/Pow/Target.antt =====
-- `difficulty_to_target` and `meets_difficulty` of irondag-blockchain/src/pow.rs. A hash is its list
-- of 32 bytes.
pub mod Order
use Prim.Native.Nat.{ℕ, zero, suc, ◌/◌, ◌%◌, ◌^◌}
use mathlib.Core.Bool.{Bool, true, ◌&&◌}
use mathlib.Core.List.{List, [], ◌∷◌}
use iron_dag.Prelude.Tests.{ltb, leb, ◌==◌, if◌then◌else◌}

-- `0xFF >> bits`
abbrev pub mask : ℕ → ℕ
mask bits = 255 / 2 ^ bits

-- What the boundary byte of the target becomes.
abbrev pub boundary : ℕ → ℕ → ℕ
boundary bits b = if ltb 0 bits then mask bits else b

-- `vec![0xFF; n]`
pub all_ones : ℕ → List ℕ
all_ones zero = []
all_ones (suc n) = 255 ∷ all_ones n

-- The two writes into the target: `zero_bytes` leading zeros, then the byte at the boundary where
-- it is partial.
pub clear_bits : ℕ → ℕ → List ℕ → List ℕ
clear_bits zero_bytes bits [] = []
clear_bits zero bits (b ∷ bs) = boundary bits b ∷ bs
clear_bits (suc zero_bytes) bits (b ∷ bs) = 0 ∷ clear_bits zero_bytes bits bs

pub difficulty_to_target : ℕ → List ℕ
unfolding all_ones clear_bits
difficulty_to_target difficulty = clear_bits (difficulty / 8) (difficulty % 8) (all_ones 32)

-- The loop over the zero bytes and the test of the boundary byte.
pub meets_bits : ℕ → ℕ → List ℕ → Bool
meets_bits zero_bytes bits [] = true
meets_bits zero bits (b ∷ bs) = if ltb 0 bits then leb b (mask bits) else true
meets_bits (suc zero_bytes) bits (b ∷ bs) = (b == 0) && meets_bits zero_bytes bits bs

pub meets_difficulty : List ℕ → ℕ → Bool
unfolding meets_bits
meets_difficulty hash difficulty = meets_bits (difficulty / 8) (difficulty % 8) hash
