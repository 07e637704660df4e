-- ===== src/Prelude/HashSet.antt =====
-- `HashSet` as a list: `insert` adds an absent value, `remove` takes every copy out.
use mathlib.Core.Path.{◌≡◌, refl}
use mathlib.Core.Bool.{Bool, false, ◌||◌}
use mathlib.Core.List.{List, [], ◌∷◌, ◌++◌}
use native.Mathlib.Omega.{arith}
use iron_dag.Prelude.Tests.{if◌then◌else◌}
use iron_dag.Prelude.Eq.{Eq}

module _ {ℓ} {A : Type ℓ} ⦃e : Eq A⦄ where
  -- also `Vec::contains`
  unfoldable pub contains : A → List A → Bool
  contains a [] = false
  contains a (x ∷ xs) = e.beq x a || contains a xs

  unfoldable pub add : A → List A → List A
  unfolding contains
  add a xs = if contains a xs then xs else a ∷ xs

  unfoldable pub delete : A → List A → List A
  delete a [] = []
  delete a (x ∷ xs) = if e.beq x a then delete a xs else x ∷ delete a xs

  pub contains-add : (a b : A) (xs : List A) → contains b (add a xs) ≡ (e.beq a b || contains b xs)
  unfolding add
  contains-add a b xs = ground (arith, e.beq_iff a b)

  pub contains-delete :
      (a b : A) (xs : List A)
      → contains b (delete a xs) ≡ (if e.beq a b then false else contains b xs)
  unfolding contains delete
  contains-delete a b [] = ground arith
  contains-delete a b (x ∷ xs) =
      ground (arith, e.beq_iff a b, e.beq_iff x a, e.beq_iff x b, contains-delete a b xs)

  pub contains-append :
      (b : A) (xs ys : List A) → contains b (xs ++ ys) ≡ (contains b xs || contains b ys)
  unfolding contains
  contains-append b [] ys = refl
  contains-append b (x ∷ xs) ys = ground (arith, contains-append b xs ys)
