-- ===== src/Pow/Target/Order.antt =====
-- A hash meets a difficulty exactly if, read as a big-endian number, it is at most the target.
use Prim.Native.Nat.{ℕ, zero, suc, ◌+◌, ◌*◌, ◌/◌, ◌%◌, ◌^◌, ◌-◌, ◌≤◌, ◌<◌}
use mathlib.Core.Path.{◌≡◌, refl, sym, ◌∙◌}
use mathlib.Core.Logic.{◌↔◌}
use mathlib.Core.Bool.{Bool, true, false}
use mathlib.Core.List.{List, [], ◌∷◌}
use native.Mathlib.Nat.{div-le_self}
use native.Mathlib.Omega.{arith}
use iron_dag.Prelude.Tests.{ltb, leb, ◌==◌, ==_iff, if◌then◌else◌}
use iron_dag.Prelude.Lists.{length}
use iron_dag.Pow.Target.{
  mask, boundary, all_ones, clear_bits, difficulty_to_target, meets_bits, meets_difficulty,
}

abbrev pub AreBytes : List ℕ → Type 0
AreBytes [] = Unit
AreBytes (b ∷ bs) = (b < 256) × AreBytes bs

-- 256 to the number of bytes.
pub span : List ℕ → ℕ
span [] = 1
span (b ∷ bs) = 256 * span bs

-- The big-endian value.
pub value : List ℕ → ℕ
unfolding span
value [] = 0
value (b ∷ bs) = b * span bs + value bs

value-lt-span : (bs : List ℕ) → AreBytes bs → value bs < span bs
unfolding value
value-lt-span [] h = omega arith
value-lt-span (b ∷ bs) h = let ih = value-lt-span bs h.1 in grind arith

span-eq : (xs ys : List ℕ) → length xs ≡ length ys → span xs ≡ span ys
unfolding span
span-eq [] [] e = refl
span-eq [] (y ∷ ys) e = absurd (omega arith)
span-eq (x ∷ xs) [] e = absurd (omega arith)
span-eq (x ∷ xs) (y ∷ ys) e = omega (arith, span-eq xs ys (omega arith))

value-all_ones : (n : ℕ) → value (all_ones n) + 1 ≡ span (all_ones n)
unfolding value all_ones
value-all_ones zero = refl
value-all_ones (suc n) = omega (arith, value-all_ones n)

scale_le : (P b m v t : ℕ) → v < P → t + 1 ≡ P → b ≤ m → b * P + v ≤ m * P + t
scale_le P b m v t hv ht h = let k : b * P ≤ m * P = grind arith in omega arith

scale_gt : (P b m v t : ℕ) → t < P → m < b → ¬ (b * P + v ≤ m * P + t)
scale_gt P b m v t ht h = let k : (m + 1) * P ≤ b * P = grind arith in omega arith

span-clear_bits : (z bits : ℕ) (bs : List ℕ) → span (clear_bits z bits bs) ≡ span bs
unfolding clear_bits span
span-clear_bits z bits [] = refl
span-clear_bits zero bits (b ∷ bs) = refl
span-clear_bits (suc z) bits (b ∷ bs) = omega (arith, span-clear_bits z bits bs)

mask-lt : (bits : ℕ) → mask bits < 256
mask-lt bits = omega (arith, div-le_self 255 (2 ^ bits))

clear_bits-AreBytes : (z bits : ℕ) (bs : List ℕ) → AreBytes bs → AreBytes (clear_bits z bits bs)
unfolding clear_bits
clear_bits-AreBytes z bits [] h = tt
clear_bits-AreBytes zero bits (b ∷ bs) h = ground (arith, mask-lt bits)
clear_bits-AreBytes (suc z) bits (b ∷ bs) h = (omega arith, clear_bits-AreBytes z bits bs h.1)

all_ones-AreBytes : (n : ℕ) → AreBytes (all_ones n)
unfolding all_ones
all_ones-AreBytes zero = tt
all_ones-AreBytes (suc n) = (omega arith, all_ones-AreBytes n)

value-clear_bits-lt : (z bits n : ℕ) → value (clear_bits z bits (all_ones n)) < span (all_ones n)
value-clear_bits-lt z bits n = omega (
  arith,
  span-clear_bits z bits (all_ones n),
  value-lt-span (clear_bits z bits (all_ones n))
      (clear_bits-AreBytes z bits (all_ones n) (all_ones-AreBytes n)),
)

length-all_ones : (n : ℕ) → length (all_ones n) ≡ n
unfolding all_ones
length-all_ones zero = refl
length-all_ones (suc n) = omega (arith, length-all_ones n)

-- The boundary byte decides where it is partial, and passes where it is full.
boundary_iff :
    (bits P b v t : ℕ)
    → b < 256
    → v < P
    → t + 1 ≡ P
    → ((if ltb 0 bits then leb b (mask bits) else true) ≡ true)
      ↔ (b * P + v ≤ boundary bits 255 * P + t)
boundary_iff bits P b v t hb hv ht = ground (
  arith,
  scale_le P b (mask bits) v t hv ht,
  scale_le P b 255 v t hv ht,
  scale_gt P b (mask bits) v t,
)

meets_bits_iff :
    (z bits n : ℕ) (hash : List ℕ)
    → AreBytes hash
    → length hash ≡ n
    → (meets_bits z bits hash ≡ true) ↔ (value hash ≤ value (clear_bits z bits (all_ones n)))
unfolding meets_bits clear_bits value all_ones
meets_bits_iff z bits zero [] h e = ground arith
meets_bits_iff z bits zero (b ∷ bs) h e = absurd (omega arith)
meets_bits_iff z bits (suc n) [] h e = absurd (omega arith)
meets_bits_iff zero bits (suc n) (b ∷ bs) h e =
    rw (span-eq bs (all_ones n) (e' ∙ sym (length-all_ones n))) (
      boundary_iff bits (span (all_ones n)) b (value bs) (value (all_ones n)) h.0
        (omega
          (arith, span-eq bs (all_ones n) (e' ∙ sym (length-all_ones n)), value-lt-span bs h.1))
        (value-all_ones n))
  where
    e' : length bs ≡ n
    e' = omega arith
meets_bits_iff (suc z) bits (suc n) (b ∷ bs) h e = ground (
  arith,
  meets_bits_iff z bits n bs h.1 (omega arith),
  scale_gt (span bs) b 0 (value bs) (value (clear_bits z bits (all_ones n))),
  value-clear_bits-lt z bits n,
  span-eq bs (all_ones n) (omega (arith, length-all_ones n)),
)

-- A hash of 32 bytes meets a difficulty exactly if, as a big-endian number, it is at most the
-- target that `difficulty_to_target` gives for that difficulty.
pub meets_difficulty_iff :
    (hash : List ℕ) (d : ℕ)
    → AreBytes hash
    → length hash ≡ 32
    → (meets_difficulty hash d ≡ true) ↔ (value hash ≤ value (difficulty_to_target d))
unfolding meets_difficulty difficulty_to_target
meets_difficulty_iff hash d h e = meets_bits_iff (d / 8) (d % 8) 32 hash h e

-- A test that passes at each number up to a bound.
passes_to : (ℕ → Bool) → ℕ → Bool
passes_to p zero = p 0
passes_to p (suc n) = if p (suc n) then passes_to p n else false

passes_at : (p : ℕ → Bool) (n x : ℕ) → passes_to p n ≡ true → x ≤ n → p x ≡ true
unfolding passes_to
passes_at p zero x t le = ground arith
passes_at p (suc n) x t le = ground (arith, passes_at p n x)

abbrev is_power : ℕ → Bool
is_power d = value (difficulty_to_target d) + 1 == 2 ^ (256 - d)

powers : passes_to is_power 256 ≡ true
unfolding passes_to value difficulty_to_target
powers = refl

target-eq-pow : (d : ℕ) → d ≤ 256 → value (difficulty_to_target d) + 1 ≡ 2 ^ (256 - d)
target-eq-pow d le =
    (==_iff (value (difficulty_to_target d) + 1) (2 ^ (256 - d))).0
      (passes_at is_power 256 d powers le)

-- Up to 256 the difficulty is the number of leading zero bits that is asked for: a hash of 32 bytes
-- meets it exactly if its big-endian value is below 2 ^ (256 - difficulty).
meets_difficulty_zero_bits :
    (hash : List ℕ) (d : ℕ)
    → AreBytes hash
    → length hash ≡ 32
    → d ≤ 256
    → (meets_difficulty hash d ≡ true) ↔ (value hash < 2 ^ (256 - d))
meets_difficulty_zero_bits hash d h e le =
    let (to, from) = meets_difficulty_iff hash d h e in
    let t = target-eq-pow d le in (λ m. omega (arith, to m), λ lt. from (omega arith))
