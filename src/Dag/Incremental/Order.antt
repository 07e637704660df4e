-- ===== src/Dag/Incremental/Order.antt =====
-- The ordering that binary search keeps, and where it differs from the full sort.
use Prim.Native.Nat.{ℕ, zero, suc, ◌≤◌, ◌<◌, Ordering}
use Prim.Native.Nat.Ordering.{lt, eq, gt}
use mathlib.Core.Path.{◌≡◌, refl}
use mathlib.Core.Logic.{◌≢◌, ◌⊎◌}
use mathlib.Core.List.{List, [], ◌∷◌}
use native.Mathlib.Omega.{arith}
use iron_dag.Prelude.Lists.{take, drop}
use iron_dag.Dag.State.{GhostDag, score_of, time_of}
use iron_dag.Dag.Full.{sort_entries}
use iron_dag.Dag.Incremental.{probe_order, insert_at, insert_ordered, insert_added}

abbrev pub All : (ℕ → Type 0) → List ℕ → Type 0
All P [] = Unit
All P (x ∷ xs) = P x × All P xs

abbrev pub IsSortedBy : (ℕ → ℕ → Type 0) → List ℕ → Type 0
IsSortedBy R [] = Unit
IsSortedBy R (x ∷ xs) = All (R x) xs × IsSortedBy R xs

abbrev pub rank : Ordering → ℕ
rank lt = 0
rank eq = 1
rank gt = 2

-- What `binary_search_by` documents: on a list that its comparator splits into smaller, equal and
-- greater elements, in this order, nothing before the index is greater, and nothing from it on is
-- smaller.
abbrev pub IsBinarySearch : ((ℕ → Ordering) → List ℕ → ℕ) → Type 0
IsBinarySearch search =
    (f : ℕ → Ordering) (xs : List ℕ)
    → IsSortedBy (λ a b. rank (f a) ≤ rank (f b)) xs
    → All (λ x. f x ≢ gt) (take (search f xs) xs) × All (λ x. f x ≢ lt) (drop (search f xs) xs)

All-map : (P Q : ℕ → Type 0) (xs : List ℕ) → ((x : ℕ) → P x → Q x) → All P xs → All Q xs
All-map P Q [] f h = tt
All-map P Q (x ∷ xs) f h = (f x h.0, All-map P Q xs f h.1)

IsSortedBy-map :
    (R S : ℕ → ℕ → Type 0) (xs : List ℕ)
    → ((x y : ℕ) → R x y → S x y)
    → IsSortedBy R xs
    → IsSortedBy S xs
IsSortedBy-map R S [] f h = tt
IsSortedBy-map R S (x ∷ xs) f h = (All-map (R x) (S x) xs (f x) h.0, IsSortedBy-map R S xs f h.1)

All-insert_at : (P : ℕ → Type 0) (i h : ℕ) (xs : List ℕ) → P h → All P xs → All P (insert_at i h xs)
All-insert_at P zero h xs p a = (p, a)
All-insert_at P (suc i) h [] p a = (p, tt)
All-insert_at P (suc i) h (x ∷ xs) p a = (a.0, All-insert_at P i h xs p a.1)

insert_at-IsSortedBy :
    (R : ℕ → ℕ → Type 0) (i h : ℕ) (xs : List ℕ)
    → IsSortedBy R xs
    → All (λ x. R x h) (take i xs)
    → All (R h) (drop i xs)
    → IsSortedBy R (insert_at i h xs)
insert_at-IsSortedBy R zero h xs s before after = (after, s)
insert_at-IsSortedBy R (suc i) h [] s before after = (tt, tt)
insert_at-IsSortedBy R (suc i) h (x ∷ xs) s before after =
    (All-insert_at (R x) i h xs before.0 s.0, insert_at-IsSortedBy R i h xs s.1 before.1 after)

-- A higher score stands first; of equal scores, the later timestamp.
abbrev pub Precedes : GhostDag → ℕ → ℕ → Type 0
Precedes g a b =
    (score_of b g < score_of a g) ⊎ ((score_of a g ≡ score_of b g) × (time_of b g ≤ time_of a g))

probe_rank :
    (h : ℕ) (g : GhostDag) (a b : ℕ)
    → Precedes g a b
    → rank (probe_order h g a) ≤ rank (probe_order h g b)
unfolding probe_order
probe_rank h g a b p = ground arith

probe_before : (h : ℕ) (g : GhostDag) (x : ℕ) → probe_order h g x ≢ gt → Precedes g x h
unfolding probe_order
probe_before h g x n = ground arith

probe_after : (h : ℕ) (g : GhostDag) (x : ℕ) → probe_order h g x ≢ lt → Precedes g h x
unfolding probe_order
probe_after h g x n = ground arith

probe_later :
    (h x : ℕ) (g : GhostDag)
    → score_of h g ≡ score_of x g
    → time_of x g < time_of h g
    → probe_order h g x ≡ gt
unfolding probe_order
probe_later h x g same earlier = ground arith

one_found :
    (h x i : ℕ) (f : ℕ → Ordering)
    → f x ≡ gt
    → All (λ y. f y ≢ gt) (take i (x ∷ []))
    → insert_at i h (x ∷ []) ≡ h ∷ x ∷ []
one_found h x zero f e a = refl
one_found h x (suc i) f e a = absurd (a.0 e)

module _ (search : (ℕ → Ordering) → List ℕ → ℕ) (law : IsBinarySearch search) where
  -- The patch of the ordering puts blocks by falling scores, and blocks of equal score by falling
  -- timestamps: if the ordering stands so, it stands so after the insertion of any blocks.
  pub insert_added-IsSortedBy :
      (hs : List ℕ) (g : GhostDag) (ordering : List ℕ)
      → IsSortedBy (Precedes g) ordering
      → IsSortedBy (Precedes g) (insert_added search hs g ordering)
  unfolding insert_added
  insert_added-IsSortedBy [] g ordering s = s
  insert_added-IsSortedBy (h ∷ hs) g ordering s =
      let f = probe_order h g in
      let i = search f ordering in
      let parts = law f ordering (
        IsSortedBy-map (Precedes g) (λ a b. rank (f a) ≤ rank (f b)) ordering (probe_rank h g) s) in
      insert_added-IsSortedBy hs g (insert_at i h ordering) (
        insert_at-IsSortedBy (Precedes g) i h ordering s
          (All-map (λ x. f x ≢ gt) (λ x. Precedes g x h) (take i ordering) (probe_before h g)
            parts.0)
          (All-map (λ x. f x ≢ lt) (Precedes g h) (drop i ordering) (probe_after h g) parts.1))

  -- Of two blocks with equal scores the full sort puts the one with the earlier timestamp first, and
  -- the insertion into the ordering puts it last.
  insert_ordered_tie :
      (h x : ℕ) (g : GhostDag)
      → score_of h g ≡ score_of x g
      → time_of x g < time_of h g
      → (insert_ordered search h g (x ∷ []) ≡ h ∷ x ∷ [])
        × (sort_entries ((h, score_of h g, time_of h g) ∷ (x, score_of x g, time_of x g) ∷ [])
            ≡ (x, score_of x g, time_of x g) ∷ (h, score_of h g, time_of h g) ∷ [])
  unfolding insert_ordered sort_entries
  insert_ordered_tie h x g same earlier = (
    one_found h x (search (probe_order h g) (x ∷ [])) (probe_order h g)
        (probe_later h x g same earlier) (law (probe_order h g) (x ∷ []) (tt, tt)).0,
    ground arith,
  )
