-- ===== src/Validation/Rules.antt =====
-- The rules that an accepted block meets, whatever the order of the checks.
use Prim.Native.Nat.{ℕ, ◌+◌, ◌-◌, ◌≤◌}
use mathlib.Core.Path.{◌≡◌, refl}
use mathlib.Core.Logic.{◌↔◌, ◌≢◌, ◌⊎◌, inl, inr}
use mathlib.Core.Bool.{true, false, ◌||◌}
use mathlib.Core.List.{List, [], ◌∷◌, ◌++◌}
use mathlib.Core.Option.{Option, none, some}
use native.Mathlib.Omega.{arith}
use iron_dag.Prelude.Tests.{leb, ◌==◌, Option-cases, Bool-cases}
use iron_dag.Prelude.Lists.{length, any}
use iron_dag.Prelude.Eq.{nat_eq}
use iron_dag.Prelude.HashSet.{contains}
use iron_dag.Prelude.Map.{get}
use iron_dag.Validation.{
  Block, BlocksData, Verdict, ok, max_block_size, max_parent_hashes, max_transactions_per_block,
  max_timestamp_drift, min_timestamp, max_parent_age, is_valid_parent,
  validate_parent_hashes_enhanced, has_duplicate, check_duplicate_transactions,
  validate_block_timestamp, validate_block_number, validate_block_limits, expected_hash,
  verify_tx_root, validate_block_enhanced,
}

-- No transaction stands twice, nor one that was seen.
abbrev pub AreDistinct : List ℕ → List ℕ → Type 0
AreDistinct seen [] = Unit
AreDistinct seen (t ∷ ts) = (contains t seen ≡ false) × AreDistinct (t ∷ seen) ts

has_duplicate_iff : (seen ts : List ℕ) → (has_duplicate seen ts ≡ false) ↔ AreDistinct seen ts
unfolding has_duplicate
has_duplicate_iff seen [] = ground arith
has_duplicate_iff seen (t ∷ ts) = ground (arith, has_duplicate_iff (t ∷ seen) ts)

-- A parent that may stand: its hash is known, and its block is not stored, is a genesis block, or is
-- at most so many blocks back.
abbrev pub MayStand : BlocksData → ℕ → ℕ → Type 0
MayStand d number p =
    (contains p d.block_hashes ≡ true)
    × ((get p d.blocks ≡ none)
        ⊎ ((n : ℕ) × (get p d.blocks ≡ some n) × ((n ≡ 0) ⊎ (number ≤ n + max_parent_age))))

abbrev pub OneMayStand : BlocksData → ℕ → List ℕ → Type 0
OneMayStand d number [] = ⊥
OneMayStand d number (p ∷ ps) = MayStand d number p ⊎ OneMayStand d number ps

age_of :
    (n number : ℕ)
    → ((n == 0) || leb (number - n) max_parent_age) ≡ true
    → (n ≡ 0) ⊎ (number ≤ n + max_parent_age)
age_of n number h = elim (Bool-cases (n == 0)) [
  | inl zero ↦ inl (ground arith)
  | inr more ↦ inr (ground arith)
]

is_valid_parent_iff :
    (d : BlocksData) (number p : ℕ) → (is_valid_parent d number p ≡ true) ↔ MayStand d number p
unfolding is_valid_parent
is_valid_parent_iff d number p = elim (Option-cases (get p d.blocks)) [
  | inl e ↦ (λ h. (ground arith, inl e), λ h. ground (arith, h.0))
  | inr (n, e) ↦ (
    λ h. (ground (arith, e), inr (n, e, age_of n number (ground (arith, e)))),
    λ h. elim h.1 [ inl f ↦ absurd (ground arith) | inr v ↦ ground (arith, h.0, v.1, v.2) ],
  )
]

some_parent_iff :
    (d : BlocksData) (number : ℕ) (ps : List ℕ)
    → (any (is_valid_parent d number) ps ≡ true) ↔ OneMayStand d number ps
some_parent_iff d number [] = ground arith
some_parent_iff d number (p ∷ ps) =
    let one = is_valid_parent_iff d number p in
    let later = some_parent_iff d number ps in
    elim (Bool-cases (is_valid_parent d number p)) [
      | inl stands ↦ (λ h. inl (one.0 stands), λ h. rw stands refl)
      | inr falls ↦ (
        λ h. inr (later.0 (rw falls at h)),
        λ h. elim h [ inl v ↦ absurd (ground (arith, one.1 v)) | inr v ↦ rw falls (later.1 v) ],
      )
    ]

-- A block has one to ten parents of which one may stand, unless it is a genesis block.
abbrev pub HasParents : BlocksData → Block → Type 0
HasParents d b =
    (b.block_number ≡ 0)
    ⊎ ((b.parent_hashes ≢ [])
        × (length b.parent_hashes ≤ max_parent_hashes)
        × OneMayStand d b.block_number b.parent_hashes)

parents_iff :
    (d : BlocksData) (b : Block) → (validate_parent_hashes_enhanced d b ≡ ok) ↔ HasParents d b
unfolding validate_parent_hashes_enhanced
parents_iff d b = ground (arith, some_parent_iff d b.block_number b.parent_hashes)

module _ (keccak_pair : ℕ → ℕ → ℕ) (keccak_zeros : ℕ) (hash_blake3 hash_b3memhash : Block → ℕ → ℕ)
    (hash_keccak : Block → List ℕ → ℕ) (serialized_size : Block → Option ℕ) where
  abbrev validate : ℕ → BlocksData → Block → Verdict
  validate =
      validate_block_enhanced keccak_pair keccak_zeros hash_blake3 hash_b3memhash hash_keccak
        serialized_size

  abbrev expected : Block → Option ℕ
  expected =
      expected_hash keccak_pair keccak_zeros hash_blake3 hash_b3memhash hash_keccak serialized_size

  -- What the rules ask of a block, at a time.
  pub record IsAcceptable (now : ℕ) (d : BlocksData) (b : Block) : Type 0 where
    pub few : length b.transactions ≤ max_transactions_per_block
    pub small : (size : ℕ) × (serialized_size b ≡ some size) × (size ≤ max_block_size)
    pub not_future : b.timestamp ≤ now + max_timestamp_drift
    pub not_old : min_timestamp ≤ b.timestamp
    pub parents : HasParents d b
    pub distinct : AreDistinct [] b.transactions
    pub hashed : expected b ≡ some b.hash

  limits_iff :
      (b : Block)
      → (validate_block_limits keccak_pair keccak_zeros hash_blake3 hash_b3memhash hash_keccak
            serialized_size b
          ≡ ok)
        ↔ ((length b.transactions ≤ max_transactions_per_block)
            × ((size : ℕ) × (serialized_size b ≡ some size) × (size ≤ max_block_size)))
  unfolding validate_block_limits
  limits_iff b = elim (Option-cases (serialized_size b)) [
    | inl e ↦ (λ h. absurd (ground arith), λ h. let (few, (n, s, le)) = h in absurd (ground arith))
    | inr (n, e) ↦
        (λ h. (ground arith, (n, e, ground arith)), λ h. let (few, (m, s, le)) = h in ground arith)
  ]

  root_iff :
      (b : Block)
      → (verify_tx_root keccak_pair keccak_zeros hash_blake3 hash_b3memhash hash_keccak
            serialized_size b
          ≡ ok)
        ↔ (expected b ≡ some b.hash)
  unfolding verify_tx_root
  root_iff b = elim (Option-cases (expected b)) [ inl e ↦ ground arith | inr (n, e) ↦ ground arith ]

  accepted : (now : ℕ) (d : BlocksData) (b : Block) → validate now d b ≡ ok → IsAcceptable now d b
  unfolding validate_block_enhanced validate_block_timestamp validate_block_number
      check_duplicate_transactions
  accepted now d b h = record {
    few = ((limits_iff b).0 (ground arith)).0;
    small = ((limits_iff b).0 (ground arith)).1;
    not_future = ground arith;
    not_old = ground arith;
    parents = (parents_iff d b).0 (ground arith);
    distinct = (has_duplicate_iff [] b.transactions).0 (ground arith);
    hashed = (root_iff b).0 (ground arith);
  }

  duplicate_last : (seen ts : List ℕ) (t : ℕ) → has_duplicate seen (ts ++ t ∷ t ∷ []) ≡ true
  unfolding has_duplicate contains
  duplicate_last seen [] t = ground arith
  duplicate_last seen (x ∷ ts) t = ground (arith, duplicate_last (x ∷ seen) ts t)

  -- A block whose last transaction is listed twice never passes the enhanced validation.
  pub repeated_last-rejected :
      (now : ℕ) (d : BlocksData) (b : Block) (ts : List ℕ) (t : ℕ)
      → b.transactions ≡ ts ++ t ∷ t ∷ []
      → validate now d b ≢ ok
  repeated_last-rejected now d b ts t e h = ground (
    arith,
    duplicate_last [] ts t,
    (has_duplicate_iff [] b.transactions).1 (accepted now d b h).distinct,
  )
