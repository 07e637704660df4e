-- ===== src/Validation/Tests.antt =====
-- Concrete runs of the validation of blocks.
use Prim.Native.Nat.{ℕ, ◌+◌, ◌*◌}
use mathlib.Core.Path.{◌≡◌, refl}
use mathlib.Core.Logic.{◌≢◌}
use mathlib.Core.List.{List, [], ◌∷◌}
use mathlib.Core.Option.{Option, none, some}
use iron_dag.Prelude.Lists.{length}
use iron_dag.Prelude.HashSet.{contains}
use iron_dag.Prelude.Map.{get}
use iron_dag.Pow.Merkle.{calculate_transactions_root, levels, next_level}
use iron_dag.Validation.{
  Block, BlocksData, Verdict, stream_a, ok, err, duplicate_transaction, is_valid_parent,
  validate_parent_hashes_enhanced, has_duplicate, check_duplicate_transactions,
  validate_block_timestamp, validate_block_limits, expected_hash, verify_tx_root,
  validate_block_enhanced,
}
use iron_dag.Validation.Structure.{
  StructureError, before_median, validate_block_structure, recent, sort, insert_sorted, median,
  check_median, check_times, check_shape,
}
use iron_dag.Validation.Rules.{repeated_last-rejected}

-- Stand-ins for the hash functions and for the size.
abbrev mix : ℕ → ℕ → ℕ
mix a b = 3 * a + b + 1

abbrev of_root : Block → ℕ → ℕ
of_root b root = 100 * root + b.block_number

abbrev of_all : Block → List ℕ → ℕ
of_all b ts = b.block_number

abbrev size : Block → Option ℕ
size b = some (500 + 200 * length b.transactions)

-- A stored block 7, and the genesis block.
abbrev stored : BlocksData
stored = record { block_hashes = 7 ∷ 1 ∷ []; blocks = (1, 0) ∷ (7, 40) ∷ [] }

abbrev candidate : List ℕ → Block
candidate ts = record {
  hash = 2341;
  parent_hashes = 9 ∷ 7 ∷ [];
  block_number = 41;
  stream_type = stream_a;
  timestamp = 1_700_000_000;
  transactions = ts;
}

abbrev check : Block → Verdict
check = validate_block_enhanced mix 0 of_root of_root of_all size 1_700_000_010 stored

one_after_another :
    (check (candidate (5 ∷ 7 ∷ [])) ≡ ok)
    × (check (candidate (5 ∷ 7 ∷ 7 ∷ [])) ≡ err duplicate_transaction)
unfolding validate_block_enhanced validate_block_limits validate_block_timestamp
    validate_parent_hashes_enhanced is_valid_parent check_duplicate_transactions has_duplicate
    verify_tx_root expected_hash contains get calculate_transactions_root levels next_level
one_after_another = (refl, refl)

repeated_last-rejected_example : check (candidate (5 ∷ 7 ∷ 7 ∷ [])) ≢ ok
repeated_last-rejected_example =
    repeated_last-rejected mix 0 of_root of_root of_all size 1_700_000_010 stored
      (candidate (5 ∷ 7 ∷ 7 ∷ [])) (5 ∷ []) 7 refl

-- The timestamps of twelve stored blocks, most of them in the order of their arrival.
abbrev timestamps : ℕ → List ℕ
timestamps t =
    9_999_999_999
    ∷ t
    ∷ (t + 1)
    ∷ (t + 9)
    ∷ (t + 2)
    ∷ (t + 3)
    ∷ (t + 4)
    ∷ (t + 5)
    ∷ (t + 6)
    ∷ (t + 7)
    ∷ (t + 8)
    ∷ (t + 20)
    ∷ []

abbrev check_structure : ℕ → Option StructureError
check_structure t = validate_block_structure size 1_700_000_010 (timestamps t) (candidate (5 ∷ []))

-- The median is 2 seconds ahead of the candidate, then 3.
median_of_eleven :
    (check_structure 1_699_999_997 ≡ none) × (check_structure 1_699_999_998 ≡ some before_median)
unfolding validate_block_structure check_shape check_times check_median median recent sort
    insert_sorted
median_of_eleven = (refl, refl)
