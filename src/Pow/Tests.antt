-- ===== src/Pow/Tests.antt =====
-- Concrete runs of the proof-of-work arithmetic.
use Prim.Native.Nat.{ℕ, ◌*◌, ◌+◌, ◌≤◌}
use mathlib.Core.Path.{◌≡◌, refl}
use mathlib.Core.Logic.{◌↔◌}
use mathlib.Core.Bool.{true}
use mathlib.Core.List.{List, [], ◌∷◌}
use mathlib.Core.Option.{some}
use native.Mathlib.Omega.{arith}
use iron_dag.Pow.Retarget.{max_difficulty, adjust_difficulty}
use iron_dag.Pow.Retarget.Bounds.{adjust_difficulty_damped}
use iron_dag.Pow.Target.{difficulty_to_target, meets_difficulty}
use iron_dag.Pow.Target.Order.{AreBytes, value, meets_difficulty_iff}
use iron_dag.Pow.Merkle.{calculate_transactions_root}
use iron_dag.Pow.Merkle.Tree.{Perfect, leaf, node, leaves, root, root-leaves}

-- Blocks that take twice the target time lower the difficulty.
adjust_difficulty_damped_example :
    (1 ≤ adjust_difficulty 12 10 20)
    × (adjust_difficulty 12 10 20 ≤ max_difficulty)
    × (2 * adjust_difficulty 12 10 20 ≤ 3 * 12)
    × (667 * 12 ≤ 1000 * adjust_difficulty 12 10 20 + 999)
adjust_difficulty_damped_example = adjust_difficulty_damped 12 10 20 (omega arith) (omega arith)

-- A hash of 32 bytes with twelve leading zero bits.
abbrev hash_12 : List ℕ
hash_12 =
    0 ∷ 15 ∷ 1 ∷ 2 ∷ 3 ∷ 4 ∷ 5 ∷ 6 ∷ 7 ∷ 8 ∷ 9 ∷ 10 ∷ 11 ∷ 12 ∷ 13 ∷ 14 ∷ 15 ∷ 16 ∷ 17 ∷ 18 ∷ 19
    ∷ 20 ∷ 21 ∷ 22 ∷ 23 ∷ 24 ∷ 25 ∷ 26 ∷ 27 ∷ 28 ∷ 29 ∷ 30 ∷ []

hash_12-AreBytes : AreBytes hash_12
hash_12-AreBytes = ground arith

meets_difficulty_iff_example :
    (meets_difficulty hash_12 12 ≡ true) ↔ (value hash_12 ≤ value (difficulty_to_target 12))
meets_difficulty_iff_example = meets_difficulty_iff hash_12 12 hash_12-AreBytes refl

-- A stand-in for the hash of a pair.
abbrev mix : ℕ → ℕ → ℕ
mix a b = 3 * a + b + 1

abbrev four : Perfect ℕ 2
four = node (node (leaf 5) (leaf 6)) (node (leaf 7) (leaf 8))

root-leaves_example : calculate_transactions_root mix 0 (leaves four) ≡ some (root mix four)
root-leaves_example = root-leaves mix 0 four
