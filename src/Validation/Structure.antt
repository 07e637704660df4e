-- ===== src/Validation/Structure.antt =====
-- `validate_block_structure` of irondag-blockchain/src/blockchain/mod.rs. Of the stored blocks only
-- the timestamps are kept, in their order; the size of the serialized block is a parameter.
pub mod Median
pub mod Passes
use Prim.Native.Nat.{ℕ, ◌+◌, ◌/◌}
use mathlib.Core.Bool.{Bool, not}
use mathlib.Core.List.{List, [], ◌∷◌, reverse}
use mathlib.Core.Option.{Option, none, some}
use iron_dag.Prelude.Tests.{ltb, leb, ◌==◌, if◌then◌else◌}
use iron_dag.Prelude.Lists.{length, take, get_elem?, is_empty}
use iron_dag.Validation.{Block, max_block_size, max_parent_hashes}

pub data StructureError : Type 0 where
  not_serialized too_large too_many_parents genesis_not_first no_parents : StructureError
  too_far_in_future too_old before_median : StructureError

abbrev pub clock_skew : ℕ
clock_skew = 600

abbrev pub oldest_timestamp : ℕ
oldest_timestamp = 1_577_836_800

abbrev pub median_window : ℕ
median_window = 11

abbrev pub median_tolerance : ℕ
median_tolerance = 2

-- `sort`
unfoldable pub insert_sorted : ℕ → List ℕ → List ℕ
insert_sorted t [] = t ∷ []
insert_sorted t (u ∷ us) = let rest = insert_sorted t us in if leb t u then t ∷ u ∷ us else u ∷ rest

unfoldable pub sort : List ℕ → List ℕ
sort [] = []
sort (t ∷ ts) = insert_sorted t (sort ts)

-- The last timestamps, as many as the window holds.
unfoldable pub recent : List ℕ → List ℕ
recent timestamps = take median_window (reverse timestamps)

-- `none` where there is no block.
unfoldable pub median : List ℕ → Option ℕ
median ts = get_elem? (sort ts) (length ts / 2)

-- `none` is the answer without an error.
unfoldable pub check_median : Block → List ℕ → Option StructureError
check_median b timestamps = elim (median (recent timestamps)) [
  | none ↦ none
  | some m ↦ if ltb (b.timestamp + median_tolerance) m then some before_median else none
]

-- The clock, the year 2020 and the median.
unfoldable pub check_times : ℕ → List ℕ → Block → Option StructureError
check_times now timestamps b =
    if ltb (now + clock_skew) b.timestamp
    then some too_far_in_future
    else if ltb b.timestamp oldest_timestamp
    then some too_old
    else check_median b timestamps

-- What follows the size.
unfoldable pub check_shape : ℕ → List ℕ → Block → Option StructureError
check_shape now timestamps b =
    if ltb max_parent_hashes (length b.parent_hashes)
    then some too_many_parents
    else if b.block_number == 0
    then (if is_empty timestamps then none else some genesis_not_first)
    else if is_empty b.parent_hashes
    then some no_parents
    else check_times now timestamps b

module _ (serialized_size : Block → Option ℕ) where
  unfoldable pub validate_block_structure : ℕ → List ℕ → Block → Option StructureError
  validate_block_structure now timestamps b = elim (serialized_size b) [
    | none ↦ some not_serialized
    | some size ↦ if ltb max_block_size size then some too_large else check_shape now timestamps b
  ]
