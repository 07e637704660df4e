-- ===== src/Validation/Structure/Median.antt =====
-- The median of the timestamps by counting: sorting for `median` of validate_block_structure in
-- irondag-blockchain/src/blockchain/mod.rs.
use Prim.Native.Nat.{ℕ, zero, suc, ◌+◌, ◌*◌, ◌/◌, ◌≤◌, ◌<◌}
use mathlib.Core.Path.{◌≡◌, refl}
use mathlib.Core.Logic.{◌↔◌, ◌⊎◌, inl, inr}
use mathlib.Core.List.{List, [], ◌∷◌}
use mathlib.Core.Option.{none, some}
use native.Mathlib.Omega.{arith}
use iron_dag.Prelude.Tests.{leb, ◌==◌, if◌then◌else◌, Bool-cases}
use iron_dag.Prelude.Lists.{length, get_elem?, get_elem?-within}
use iron_dag.Validation.{Block}
use iron_dag.Validation.Structure.{
  median_tolerance, insert_sorted, sort, recent, median, check_median,
}

-- How many of the timestamps are at a bound or before it.
unfoldable pub count_le : ℕ → List ℕ → ℕ
count_le x [] = 0
count_le x (t ∷ ts) = let rest = count_le x ts in if leb t x then suc rest else rest

count_le-insert_sorted :
    (x t : ℕ) (ts : List ℕ) → count_le x (insert_sorted t ts) ≡ count_le x (t ∷ ts)
unfolding count_le insert_sorted
count_le-insert_sorted x t [] = refl
count_le-insert_sorted x t (u ∷ us) = ground (arith, count_le-insert_sorted x t us)

count_le-sort : (x : ℕ) (ts : List ℕ) → count_le x (sort ts) ≡ count_le x ts
unfolding count_le sort
count_le-sort x [] = refl
count_le-sort x (t ∷ ts) = ground (arith, count_le-insert_sorted x t (sort ts), count_le-sort x ts)

length-insert_sorted : (t : ℕ) (ts : List ℕ) → length (insert_sorted t ts) ≡ suc (length ts)
unfolding insert_sorted
length-insert_sorted t [] = refl
length-insert_sorted t (u ∷ us) = ground (arith, length-insert_sorted t us)

length-sort : (ts : List ℕ) → length (sort ts) ≡ length ts
unfolding sort
length-sort [] = refl
length-sort (t ∷ ts) = ground (arith, length-insert_sorted t (sort ts), length-sort ts)

-- Each timestamp is at least a bound, and each is at most those behind it.
abbrev AreAbove : ℕ → List ℕ → Type 0
AreAbove x [] = Unit
AreAbove x (t ∷ ts) = (x ≤ t) × AreAbove x ts

abbrev AreSorted : List ℕ → Type 0
AreSorted [] = Unit
AreSorted (t ∷ ts) = AreAbove t ts × AreSorted ts

AreAbove-le : (x y : ℕ) (ts : List ℕ) → x ≤ y → AreAbove y ts → AreAbove x ts
AreAbove-le x y [] h v = tt
AreAbove-le x y (t ∷ ts) h v = (omega (arith, v.0), AreAbove-le x y ts h v.1)

AreAbove-insert : (x t : ℕ) (ts : List ℕ) → x ≤ t → AreAbove x ts → AreAbove x (insert_sorted t ts)
unfolding insert_sorted
AreAbove-insert x t [] h v = (h, tt)
AreAbove-insert x t (u ∷ us) h v = elim (Bool-cases (leb t u)) [
  | inl le ↦ rw (insert_sorted, le) (h, v)
  | inr gt ↦ rw (insert_sorted, gt) (v.0, AreAbove-insert x t us h v.1)
]

insert_sorted-AreSorted : (t : ℕ) (ts : List ℕ) → AreSorted ts → AreSorted (insert_sorted t ts)
unfolding insert_sorted
insert_sorted-AreSorted t [] v = (tt, tt)
insert_sorted-AreSorted t (u ∷ us) v = elim (Bool-cases (leb t u)) [
  | inl le ↦
      let h : t ≤ u = ground arith in rw (insert_sorted, le) ((h, AreAbove-le t u us h v.0), v)
  | inr gt ↦
      let h : u ≤ t = ground arith in
      rw (insert_sorted, gt) (AreAbove-insert u t us h v.0, insert_sorted-AreSorted t us v.1)
]

sort-AreSorted : (ts : List ℕ) → AreSorted (sort ts)
unfolding sort
sort-AreSorted [] = tt
sort-AreSorted (t ∷ ts) = insert_sorted-AreSorted t (sort ts) (sort-AreSorted ts)

none_below : (x t : ℕ) (ts : List ℕ) → x < t → AreAbove t ts → count_le x ts ≡ 0
unfolding count_le
none_below x t [] h v = refl
none_below x t (u ∷ us) h v = ground (arith, v.0, none_below x t us h v.1)

above_at : (x i m : ℕ) (ts : List ℕ) → AreAbove x ts → get_elem? ts i ≡ some m → x ≤ m
above_at x i m [] v e = absurd (ground arith)
above_at x zero m (t ∷ ts) v e = ground (arith, v.0)
above_at x (suc i) m (t ∷ ts) v e = above_at x i m ts v.1 e

-- In a sorted list, the one at an index is at most a bound exactly if more than the index are.
ranks :
    (x i m : ℕ) (ts : List ℕ)
    → AreSorted ts
    → get_elem? ts i ≡ some m
    → (m ≤ x) ↔ (i < count_le x ts)
unfolding count_le
ranks x i m [] v e = absurd (ground arith)
ranks x zero m (t ∷ ts) v e = ground (arith, none_below x t ts)
ranks x (suc i) m (t ∷ ts) v e =
    ground (arith, ranks x i m ts v.1 e, none_below x t ts, above_at t i m ts v.0 e)

-- More than half of the timestamps are at a bound or before it, or there is none.
abbrev pub IsMajority : ℕ → List ℕ → Type 0
IsMajority x ts = (length ts ≡ 0) ⊎ (length ts < 2 * count_le x ts)

median-some : (ts : List ℕ) → 0 < length ts → (m : ℕ) × (median ts ≡ some m)
unfolding median
median-some ts h = get_elem?-within (length ts / 2) (sort ts) (omega (arith, length-sort ts))

median_iff :
    (x m : ℕ) (ts : List ℕ) → median ts ≡ some m → (m ≤ x) ↔ (length ts < 2 * count_le x ts)
unfolding median
median_iff x m ts e =
    let r = ranks x (length ts / 2) m (sort ts) (sort-AreSorted ts) e in
    let same = count_le-sort x ts in
    ((λ h. omega (arith, r.0 h, same)), (λ h. r.1 (omega (arith, h, same))))

median-none : (ts : List ℕ) → length ts ≡ 0 → median ts ≡ none
unfolding median sort
median-none [] h = refl
median-none (t ∷ ts) h = absurd (omega (arith, h))

-- A block passes the check of the median exactly if the two seconds after it bring it to more than
-- half of the recent timestamps, or there is none.
pub check_median_iff :
    (b : Block) (timestamps : List ℕ)
    → (check_median b timestamps ≡ none)
      ↔ IsMajority (b.timestamp + median_tolerance) (recent timestamps)
unfolding check_median
check_median_iff b timestamps =
    let ts = recent timestamps in
    let x = b.timestamp + median_tolerance in
    elim (Bool-cases (length ts == 0)) [
      | inl empty ↦
          let none_there = median-none ts (ground arith) in
          ((λ h. inl (ground arith)), (λ h. rw (check_median, none_there) refl))
      | inr some_there ↦
          let (m, e) = median-some ts (ground arith) in
          let r = median_iff x m ts e in
          (
            (λ h. inr (r.0 (ground (arith, e)))),
            (λ h. elim h [
              | inl z ↦ absurd (ground arith)
              | inr more ↦ ground (arith, e, r.1 more)
            ]),
          )
    ]
