-- ===== src/Pow/Merkle.antt =====
-- `calculate_transactions_root` of irondag-blockchain/src/pow.rs. Keccak-256 is a parameter, at the
-- two inputs that the code hashes: the concatenation of two hashes, and 32 zero bytes.
pub mod Tree
use Prim.Native.Nat.{ℕ, zero, suc}
use mathlib.Core.List.{List, [], ◌∷◌}
use mathlib.Core.Option.{Option, none, some}
use iron_dag.Prelude.Lists.{length}

module _ {ℓ} {H : Type ℓ} (keccak_pair : H → H → H) (keccak_zeros : H) where
  -- One round of the loop: `chunks(2)`, where a last chunk of one is paired with itself.
  unfoldable pub next_level : List H → List H
  next_level [] = []
  next_level (a ∷ []) = keccak_pair a a ∷ []
  next_level (a ∷ b ∷ rest) = keccak_pair a b ∷ next_level rest

  -- `while current_level.len() > 1`, on fuel, then the one hash that is left.
  unfoldable pub levels : ℕ → List H → Option H
  levels fuel [] = none
  levels fuel (a ∷ []) = some a
  levels zero (a ∷ b ∷ rest) = none
  levels (suc fuel) (a ∷ b ∷ rest) = levels fuel (next_level (a ∷ b ∷ rest))

  unfoldable pub calculate_transactions_root : List H → Option H
  unfolding levels
  calculate_transactions_root [] = some keccak_zeros
  calculate_transactions_root (a ∷ rest) = levels (length (a ∷ rest)) (a ∷ rest)
