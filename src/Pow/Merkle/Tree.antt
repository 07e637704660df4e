-- ===== src/Pow/Merkle/Tree.antt =====
-- The Merkle root: it always exists, it is the root of the perfect tree where the number of
-- transactions is a power of two, and a last transaction that is repeated may go unnoticed.
use Prim.Native.Nat.{ℕ, zero, suc, ◌+◌, ◌≤◌, ◌<◌, ◌%◌}
use mathlib.Core.Path.{◌≡◌, refl, sym, ap, ◌∙◌}
use mathlib.Core.List.{List, [], ◌∷◌, ◌++◌}
use mathlib.Core.Option.{some}
use native.Mathlib.Omega.{arith}
use iron_dag.Prelude.Lists.{length, length-append}
use iron_dag.Pow.Merkle.{next_level, levels, calculate_transactions_root}

-- A tree of pairs in which every path from the root to a hash has the same length.
pub data Perfect {ℓ} (H : Type ℓ) : ℕ → Type ℓ where
  leaf : H → Perfect H zero
  node : {d : ℕ} → Perfect H d → Perfect H d → Perfect H (suc d)

pub leaves {ℓ} : {H : Type ℓ} {d : ℕ} → Perfect H d → List H
leaves (leaf a) = a ∷ []
leaves (node l r) = leaves l ++ leaves r

pub root {ℓ} : {H : Type ℓ} {d : ℕ} → (H → H → H) → Perfect H d → H
root k (leaf a) = a
root k (node l r) = k (root k l) (root k r)

width : ℕ → ℕ
width zero = 1
width (suc d) = width d + width d

length-leaves {ℓ} : {H : Type ℓ} {d : ℕ} (t : Perfect H d) → length (leaves t) ≡ width d
unfolding leaves width
length-leaves (leaf a) = refl
length-leaves (node l r) =
    omega (arith, length-append (leaves l) (leaves r), length-leaves l, length-leaves r)

lt-width : (d : ℕ) → d < width d
unfolding width
lt-width zero = omega arith
lt-width (suc d) = omega (arith, lt-width d)

leaves_even {ℓ} : {H : Type ℓ} {d : ℕ} (l r : Perfect H d) → length (leaves l ++ leaves r) % 2 ≡ 0
leaves_even l r =
    omega (arith, length-append (leaves l) (leaves r), length-leaves l, length-leaves r)

module _ {ℓ} {H : Type ℓ} (keccak_pair : H → H → H) (keccak_zeros : H) where
  abbrev next : List H → List H
  next = next_level keccak_pair keccak_zeros

  length-next :
      (xs : List H)
      → (length (next xs) + length (next xs) ≤ length xs + 1)
        × (1 ≤ length xs → 1 ≤ length (next xs))
  unfolding next_level
  length-next [] = ground arith
  length-next (a ∷ []) = ground arith
  length-next (a ∷ b ∷ rest) = ground (arith, length-next rest)

  levels_total :
      (fuel : ℕ) (xs : List H)
      → 1 ≤ length xs
      → length xs ≤ fuel + 1
      → (r : H) × (levels keccak_pair keccak_zeros fuel xs ≡ some r)
  unfolding levels
  levels_total fuel [] p h = absurd (omega arith)
  levels_total fuel (a ∷ []) p h = (a, refl)
  levels_total zero (a ∷ b ∷ rest) p h = absurd (omega arith)
  levels_total (suc fuel) (a ∷ b ∷ rest) p h =
      let (shrinks, keeps) = length-next (a ∷ b ∷ rest) in
      levels_total fuel (next (a ∷ b ∷ rest)) (keeps (omega arith)) (omega arith)

  -- Every list of transaction hashes has a root: the loop ends.
  transactions_root_total :
      (xs : List H) → (r : H) × (calculate_transactions_root keccak_pair keccak_zeros xs ≡ some r)
  unfolding calculate_transactions_root
  transactions_root_total [] = (keccak_zeros, refl)
  transactions_root_total (a ∷ rest) =
      levels_total (length (a ∷ rest)) (a ∷ rest) (omega arith) (omega arith)

  -- An odd level and the same level with its last hash repeated lead to the same next level.
  next-repeat_last :
      (xs : List H) (x : H) → length xs % 2 ≡ 0 → next (xs ++ x ∷ x ∷ []) ≡ next (xs ++ x ∷ [])
  unfolding next_level
  next-repeat_last [] x e = refl
  next-repeat_last (a ∷ []) x e = absurd (omega arith)
  next-repeat_last (a ∷ b ∷ rest) x e = cc (next-repeat_last rest x (omega arith))

  levels_enough :
      (f g : ℕ) (xs : List H)
      → length xs ≤ f + 1
      → length xs ≤ g + 1
      → levels keccak_pair keccak_zeros f xs ≡ levels keccak_pair keccak_zeros g xs
  unfolding levels
  levels_enough f g [] hf hg = refl
  levels_enough f g (a ∷ []) hf hg = refl
  levels_enough zero g (a ∷ b ∷ rest) hf hg = absurd (omega arith)
  levels_enough (suc f) zero (a ∷ b ∷ rest) hf hg = absurd (omega arith)
  levels_enough (suc f) (suc g) (a ∷ b ∷ rest) hf hg =
      let (shrinks, keeps) = length-next (a ∷ b ∷ rest) in
      levels_enough f g (next (a ∷ b ∷ rest)) (omega arith) (omega arith)

  -- Where the number of transactions is odd and more than one, a block whose last transaction is
  -- listed twice has the root of the block that lists it once.
  root-repeat_last :
      (a b : H) (xs : List H) (x : H)
      → length xs % 2 ≡ 0
      → calculate_transactions_root keccak_pair keccak_zeros (a ∷ b ∷ xs ++ x ∷ x ∷ [])
        ≡ calculate_transactions_root keccak_pair keccak_zeros (a ∷ b ∷ xs ++ x ∷ [])
  unfolding calculate_transactions_root levels
  root-repeat_last a b xs x e =
      ap (levels keccak_pair keccak_zeros (suc (length (xs ++ x ∷ x ∷ []))))
        (next-repeat_last (a ∷ b ∷ xs) x (omega arith))
      ∙ (levels_enough (suc (length (xs ++ x ∷ x ∷ []))) (suc (length (xs ++ x ∷ [])))
          (next (a ∷ b ∷ xs ++ x ∷ []))
          (omega (arith, short, length-append xs (x ∷ []), length-append xs (x ∷ x ∷ [])))
          (omega (arith, short)))
    where
      short :
          length (next (a ∷ b ∷ xs ++ x ∷ [])) + length (next (a ∷ b ∷ xs ++ x ∷ []))
          ≤ length (a ∷ b ∷ xs ++ x ∷ []) + 1
      short = (length-next (a ∷ b ∷ xs ++ x ∷ [])).0

  next-append : (xs ys : List H) → length xs % 2 ≡ 0 → next (xs ++ ys) ≡ next xs ++ next ys
  unfolding next_level
  next-append [] ys e = refl
  next-append (a ∷ []) ys e = absurd (omega arith)
  next-append (a ∷ b ∷ rest) ys e = cc (next-append rest ys (omega arith))

  collapse : {d : ℕ} → Perfect H (suc d) → Perfect H d
  collapse (node (leaf a) (leaf b)) = leaf (keccak_pair a b)
  collapse (node (node a b) (node c d)) = node (collapse (node a b)) (collapse (node c d))

  root-collapse :
      {d : ℕ} (t : Perfect H (suc d)) → root keccak_pair (collapse t) ≡ root keccak_pair t
  unfolding collapse root
  root-collapse (node (leaf a) (leaf b)) = refl
  root-collapse (node (node a b) (node c d)) =
      cc (root-collapse (node a b), root-collapse (node c d))

  leaves-collapse : {d : ℕ} (t : Perfect H (suc d)) → leaves (collapse t) ≡ next (leaves t)
  unfolding collapse leaves next_level
  leaves-collapse (node (leaf a) (leaf b)) = refl
  leaves-collapse (node (node a b) (node c d)) = cc (
    leaves-collapse (node a b),
    leaves-collapse (node c d),
    next-append (leaves a ++ leaves b) (leaves c ++ leaves d) (leaves_even a b),
  )

  levels_step :
      (f : ℕ) (xs : List H)
      → 1 < length xs
      → levels keccak_pair keccak_zeros (suc f) xs ≡ levels keccak_pair keccak_zeros f (next xs)
  unfolding levels
  levels_step f [] h = absurd (omega arith)
  levels_step f (a ∷ []) h = absurd (omega arith)
  levels_step f (a ∷ b ∷ rest) h = refl

  root_as_levels :
      (xs : List H)
      → 0 < length xs
      → calculate_transactions_root keccak_pair keccak_zeros xs
        ≡ levels keccak_pair keccak_zeros (length xs) xs
  unfolding calculate_transactions_root
  root_as_levels [] h = absurd (omega arith)
  root_as_levels (a ∷ xs) h = refl

  levels-leaves :
      {d : ℕ} (f : ℕ) (t : Perfect H d)
      → d ≤ f
      → levels keccak_pair keccak_zeros f (leaves t) ≡ some (root keccak_pair t)
  unfolding leaves width root levels
  levels-leaves f (leaf a) h = refl
  levels-leaves zero (node l r) h = absurd (omega arith)
  levels-leaves (suc f) (node {d = d} l r) h =
      levels_step f (leaves (node l r)) (omega (arith, length-leaves (node l r), lt-width d))
      ∙ ap (levels keccak_pair keccak_zeros f) (sym (leaves-collapse (node l r)))
      ∙ levels-leaves f (collapse (node l r)) (omega arith)
      ∙ ap some (root-collapse (node l r))

  -- A block whose number of transactions is a power of two has the root of the perfect tree over
  -- their hashes.
  pub root-leaves :
      {d : ℕ} (t : Perfect H d)
      → calculate_transactions_root keccak_pair keccak_zeros (leaves t) ≡ some (root keccak_pair t)
  root-leaves {d} t =
      root_as_levels (leaves t) (omega (arith, length-leaves t, lt-width d))
      ∙ levels-leaves (length (leaves t)) t (omega (arith, length-leaves t, lt-width d))
