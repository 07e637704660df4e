-- ===== src/Prelude/Lists.antt =====
-- Lists measured by native numbers, under the library's names, and searches of lists.
use Prim.Native.Nat.{ℕ, zero, suc, ◌+◌, ◌≤◌, ◌<◌}
use mathlib.Core.Path.{◌≡◌, refl}
use mathlib.Core.Bool.{Bool, true, false, ◌&&◌, ◌||◌}
use mathlib.Core.List.{List, [], ◌∷◌, ◌++◌}
use mathlib.Core.Option.{Option, none, some}
use native.Mathlib.Omega.{arith}

module _ {ℓ} {A : Type ℓ} where
  abbrev pub length : List A → ℕ
  length [] = 0
  length (x ∷ xs) = suc (length xs)

  abbrev pub get_elem? : List A → ℕ → Option A
  get_elem? [] i = none
  get_elem? (x ∷ xs) zero = some x
  get_elem? (x ∷ xs) (suc i) = get_elem? xs i

  abbrev pub take : ℕ → List A → List A
  take zero xs = []
  take (suc n) [] = []
  take (suc n) (x ∷ xs) = x ∷ take n xs

  abbrev pub drop : ℕ → List A → List A
  drop zero xs = xs
  drop (suc n) [] = []
  drop (suc n) (x ∷ xs) = drop n xs

  abbrev pub set_elem : ℕ → A → List A → List A
  set_elem i y [] = []
  set_elem zero y (x ∷ xs) = y ∷ xs
  set_elem (suc i) y (x ∷ xs) = x ∷ set_elem i y xs

  -- `iter().any` and `iter().all`
  abbrev pub any : (A → Bool) → List A → Bool
  any p [] = false
  any p (x ∷ xs) = p x || any p xs

  abbrev pub all : (A → Bool) → List A → Bool
  all p [] = true
  all p (x ∷ xs) = p x && all p xs

  -- `is_empty`
  abbrev pub is_empty : List A → Bool
  is_empty [] = true
  is_empty (x ∷ xs) = false

  -- The sum of a measure.
  unfoldable pub sum_by : (A → ℕ) → List A → ℕ
  sum_by f [] = 0
  sum_by f (x ∷ xs) = f x + sum_by f xs

  pub sum_by-append : (f : A → ℕ) (xs ys : List A) → sum_by f (xs ++ ys) ≡ sum_by f xs + sum_by f ys
  unfolding sum_by
  sum_by-append f [] ys = omega arith
  sum_by-append f (x ∷ xs) ys = omega (arith, sum_by-append f xs ys)

  pub sum_by-set_elem :
      (f : A → ℕ) (i : ℕ) (x y : A) (xs : List A)
      → get_elem? xs i ≡ some y
      → sum_by f (set_elem i x xs) + f y ≡ sum_by f xs + f x
  unfolding sum_by
  sum_by-set_elem f i x y [] e = ground arith
  sum_by-set_elem f zero x y (z ∷ xs) e = ground arith
  sum_by-set_elem f (suc i) x y (z ∷ xs) e = omega (arith, sum_by-set_elem f i x y xs e)

  pub elem-le-sum_by :
      (f : A → ℕ) (i : ℕ) (y : A) (xs : List A) → get_elem? xs i ≡ some y → f y ≤ sum_by f xs
  unfolding sum_by
  elem-le-sum_by f i y [] e = ground arith
  elem-le-sum_by f zero y (z ∷ xs) e = ground arith
  elem-le-sum_by f (suc i) y (z ∷ xs) e = omega (arith, elem-le-sum_by f i y xs e)

  pub length-append : (xs ys : List A) → length (xs ++ ys) ≡ length xs + length ys
  length-append [] ys = omega arith
  length-append (x ∷ xs) ys = omega (arith, length-append xs ys)

  pub take-append : (xs ys : List A) → take (length xs) (xs ++ ys) ≡ xs
  take-append [] ys = refl
  take-append (x ∷ xs) ys = ground (arith, take-append xs ys)

  pub drop-append : (xs ys : List A) → drop (length xs) (xs ++ ys) ≡ ys
  drop-append [] ys = refl
  drop-append (x ∷ xs) ys = ground (arith, drop-append xs ys)

  pub length-take : (n : ℕ) (xs : List A) → length (take n xs) ≤ n
  length-take zero xs = omega arith
  length-take (suc n) [] = omega arith
  length-take (suc n) (x ∷ xs) = ground (arith, length-take n xs)

  pub length-set_elem : (i : ℕ) (y : A) (xs : List A) → length (set_elem i y xs) ≡ length xs
  length-set_elem i y [] = refl
  length-set_elem zero y (x ∷ xs) = refl
  length-set_elem (suc i) y (x ∷ xs) = ground (arith, length-set_elem i y xs)

  pub get_elem?-within : (i : ℕ) (xs : List A) → i < length xs → (x : A) × (get_elem? xs i ≡ some x)
  get_elem?-within i [] h = absurd (omega arith)
  get_elem?-within zero (x ∷ xs) h = (x, refl)
  get_elem?-within (suc i) (x ∷ xs) h = get_elem?-within i xs (omega arith)
