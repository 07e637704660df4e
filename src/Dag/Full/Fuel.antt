-- ===== src/Dag/Full/Fuel.antt =====
-- The walk from the genesis block comes to its end.
use Prim.Native.Nat.{ℕ, zero, suc, ◌+◌, ◌≤◌, ◌<◌}
use mathlib.Core.Path.{◌≡◌, refl, sym, subst}
use mathlib.Core.Logic.{◌⊎◌, inl, inr}
use mathlib.Core.Bool.{true, false}
use mathlib.Core.List.{List, [], ◌∷◌, ◌++◌}
use native.Mathlib.Omega.{arith}
use iron_dag.Prelude.Tests.{◌==◌, if◌then◌else◌, Bool-cases}
use iron_dag.Prelude.Lists.{length, length-append}
use iron_dag.Prelude.Eq.{nat_eq}
use iron_dag.Prelude.Map.{Map, get}
use iron_dag.Prelude.HashSet.{contains, add, contains-add, contains-append}
use iron_dag.Dag.Storage.{get_children, or_empty}
use iron_dag.Dag.State.{GhostDag, mark_blue, mark_red}
use iron_dag.Dag.Full.{Walk, classify, visit, bfs, all_children, start, fuel_for}

-- How many places of a list hold a block that has not been visited.
unvisited : List ℕ → List ℕ → ℕ
unvisited [] seen = 0
unvisited (x ∷ xs) seen = let rest = unvisited xs seen in if contains x seen then rest else suc rest

unvisited-le-length : (xs seen : List ℕ) → unvisited xs seen ≤ length xs
unfolding unvisited
unvisited-le-length [] seen = omega arith
unvisited-le-length (x ∷ xs) seen = ground (arith, unvisited-le-length xs seen)

unvisited-add_le : (c : ℕ) (xs seen : List ℕ) → unvisited xs (add c seen) ≤ unvisited xs seen
unfolding unvisited
unvisited-add_le c [] seen = omega arith
unvisited-add_le c (x ∷ xs) seen = ground (arith, unvisited-add_le c xs seen, contains-add c x seen)

unvisited-add_lt :
    (c : ℕ) (xs seen : List ℕ)
    → contains c xs ≡ true
    → contains c seen ≡ false
    → unvisited xs (add c seen) < unvisited xs seen
unfolding unvisited contains
unvisited-add_lt c [] seen h n = cc
unvisited-add_lt c (x ∷ xs) seen h n =
    ground (arith, unvisited-add_le c xs seen, unvisited-add_lt c xs seen, contains-add c x seen)

pub classify-storage : (h : ℕ) (g : GhostDag) → (classify h g).storage ≡ g.storage
unfolding classify mark_blue mark_red
classify-storage h g = ground arith

abbrev AreIn : List ℕ → List ℕ → Type 0
AreIn xs [] = Unit
AreIn xs (c ∷ cs) = (contains c xs ≡ true) × AreIn xs cs

-- What is queued and what is unvisited, together.
abbrev load : List ℕ → Walk → ℕ
load xs w = length w.queue + unvisited xs w.visited

visit_loses :
    (xs cs : List ℕ) (w : Walk)
    → AreIn xs cs
    → (load xs (visit cs w) ≤ load xs w) × ((visit cs w).dag.storage ≡ w.dag.storage)
unfolding visit
visit_loses xs [] w a = (omega arith, refl)
visit_loses xs (c ∷ cs) w a = elim (Bool-cases (contains c w.visited)) [
  | inl old ↦ rw (old, visit) (visit_loses xs cs w a.1)
  | inr fresh ↦
      let w' : Walk = record {
        queue = w.queue ++ c ∷ [];
        visited = add c w.visited;
        dag = classify c w.dag;
      } in
      let (less, same) = visit_loses xs cs w' a.1 in
      rw (fresh, visit)
        (
          omega (arith, length-append w.queue (c ∷ []), unvisited-add_lt c xs w.visited a.0 fresh),
          cc (same, classify-storage c w.dag),
        )
]

AreIn-left : (xs ys cs : List ℕ) → AreIn xs cs → AreIn (xs ++ ys) cs
AreIn-left xs ys [] a = tt
AreIn-left xs ys (c ∷ cs) a = (ground (arith, contains-append c xs ys), AreIn-left xs ys cs a.1)

AreIn-right : (xs ys cs : List ℕ) → AreIn ys cs → AreIn (xs ++ ys) cs
AreIn-right xs ys [] a = tt
AreIn-right xs ys (c ∷ cs) a = (ground (arith, contains-append c xs ys), AreIn-right xs ys cs a.1)

AreIn-cons : (x : ℕ) (xs cs : List ℕ) → AreIn xs cs → AreIn (x ∷ xs) cs
unfolding contains
AreIn-cons x xs [] a = tt
AreIn-cons x xs (c ∷ cs) a = (ground arith, AreIn-cons x xs cs a.1)

AreIn-self : (xs : List ℕ) → AreIn xs xs
unfolding contains
AreIn-self [] = tt
AreIn-self (x ∷ xs) = (ground arith, AreIn-cons x xs xs (AreIn-self xs))

children-AreIn : (h : ℕ) (m : Map ℕ (List ℕ)) → AreIn (all_children m) (or_empty (get h m))
unfolding all_children get
children-AreIn h [] = tt
children-AreIn h ((j, cs) ∷ m) = elim (Bool-cases (j == h)) [
  | inl same ↦ rw same (AreIn-left cs (all_children m) cs (AreIn-self cs))
  | inr other ↦ rw other (AreIn-right cs (all_children m) (or_empty (get h m)) (children-AreIn h m))
]

pub queue-cases : (q : List ℕ) → (q ≡ []) ⊎ ((c : ℕ) × (cs : List ℕ) × (q ≡ c ∷ cs))
queue-cases [] = inl refl
queue-cases (c ∷ cs) = inr (c, cs, refl)

bfs_ends :
    (fuel : ℕ) (xs : List ℕ) (w : Walk)
    → ((h : ℕ) → AreIn xs (get_children h w.dag.storage))
    → load xs w ≤ fuel
    → (bfs fuel w).queue ≡ []
unfolding bfs
bfs_ends zero xs w a h = elim (queue-cases w.queue) [
  | inl e ↦ e
  | inr (c, cs, e) ↦ absurd (ground arith)
]
bfs_ends (suc fuel) xs w a h = elim (queue-cases w.queue) [
  | inl e ↦ ground arith
  | inr (c, cs, e) ↦
      let w' : Walk = record w { queue = cs } in
      let (less, same) = visit_loses xs (get_children c w.dag.storage) w' (a c) in
      rw (e, bfs)
        (bfs_ends fuel xs (visit (get_children c w.dag.storage) w')
          (λ j. subst (λ s. AreIn xs (get_children j s)) (sym same) (a j)) (ground arith))
]

-- The walk of the full classification has enough fuel: it ends with an empty queue.
pub bfs-fuel_for :
    (genesis : ℕ) (g : GhostDag)
    → (bfs
        (fuel_for g)
        (record { queue = genesis ∷ []; visited = genesis ∷ []; dag = start genesis g })).queue
      ≡ []
unfolding fuel_for start get_children
bfs-fuel_for genesis g =
    let xs = all_children g.storage.hot_children in
    bfs_ends (suc (length xs)) xs
      (record { queue = genesis ∷ []; visited = genesis ∷ []; dag = start genesis g })
      (λ h. children-AreIn h g.storage.hot_children)
      (omega (arith, unvisited-le-length xs (genesis ∷ [])))
