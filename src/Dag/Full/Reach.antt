-- ===== src/Dag/Full/Reach.antt =====
-- The full classification colours every descendant of the genesis block.
use Prim.Native.Nat.{ℕ, zero, suc}
use mathlib.Core.Path.{◌≡◌, refl, sym, subst}
use mathlib.Core.Logic.{◌⊎◌, inl, inr}
use mathlib.Core.Bool.{true}
use mathlib.Core.List.{List, [], ◌∷◌, ◌++◌}
use mathlib.Core.Option.{none}
use native.Mathlib.Omega.{arith}
use iron_dag.Prelude.Tests.{◌==◌, ==_iff, if◌then◌else◌, Bool-cases, Option-cases}
use iron_dag.Prelude.Eq.{nat_eq}
use iron_dag.Prelude.HashSet.{contains, add, contains-add, contains-append}
use iron_dag.Dag.Storage.{DagStorage, get_block, get_children}
use iron_dag.Dag.State.{GhostDag, mark_blue, mark_red}
use iron_dag.Dag.Full.{Walk, classify, visit, bfs, fuel_for, start, walk_from}
use iron_dag.Dag.Full.Fuel.{classify-storage, queue-cases, bfs-fuel_for}

-- A descendant, by the children that the storage lists.
pub data Descends (s : DagStorage) (a : ℕ) : ℕ → Type 0 where
  self : Descends s a a
  child : (h c : ℕ) → Descends s a h → contains c (get_children h s) ≡ true → Descends s a c

-- A stored block is blue or red.
abbrev pub IsColoured : GhostDag → ℕ → Type 0
IsColoured g h =
    (get_block h g.storage ≡ none)
    ⊎ ((contains h g.blue_set ≡ true) ⊎ (contains h g.red_set ≡ true))

classify_colours : (h : ℕ) (g : GhostDag) → IsColoured (classify h g) h
unfolding classify mark_blue mark_red
classify_colours h g = elim (Option-cases (get_block h g.storage)) [
  | inl e ↦ ground arith
  | inr (b, e) ↦ ground (arith, contains-add h h g.blue_set, contains-add h h g.red_set)
]

classify_keeps : (h x : ℕ) (g : GhostDag) → IsColoured g x → IsColoured (classify h g) x
unfolding classify mark_blue mark_red
classify_keeps h x g v = elim (Option-cases (get_block h g.storage)) [
  | inl e ↦ ground arith
  | inr (b, e) ↦ ground (arith, contains-add h x g.blue_set, contains-add h x g.red_set)
]

-- One child, where it has not been visited.
abbrev visit_one : ℕ → Walk → Walk
visit_one c w = record {
  queue = w.queue ++ c ∷ [];
  visited = add c w.visited;
  dag = classify c w.dag;
}

-- What has been visited is coloured, and its children have been visited unless it is queued still.
record IsFair (s : DagStorage) (w : Walk) : Type 0 where
  same : w.dag.storage ≡ s
  coloured : (h : ℕ) → contains h w.visited ≡ true → IsColoured w.dag h
  closed :
      (h c : ℕ)
      → contains h w.visited ≡ true
      → contains c (get_children h s) ≡ true
      → (contains h w.queue ≡ true) ⊎ (contains c w.visited ≡ true)

-- How a walk goes on: nothing visited or queued is lost, and what is new is queued.
record Extends (w w' : Walk) : Type 0 where
  visited : (h : ℕ) → contains h w.visited ≡ true → contains h w'.visited ≡ true
  queued : (h : ℕ) → contains h w.queue ≡ true → contains h w'.queue ≡ true
  fresh :
      (h : ℕ)
      → contains h w'.visited ≡ true
      → (contains h w.visited ≡ true) ⊎ (contains h w'.queue ≡ true)
  storage : w'.dag.storage ≡ w.dag.storage
  coloured :
      ((h : ℕ) → contains h w.visited ≡ true → IsColoured w.dag h)
      → (h : ℕ) → contains h w'.visited ≡ true
      → IsColoured w'.dag h

Extends-one : (c : ℕ) (w : Walk) → Extends w (visit_one c w)
unfolding contains
Extends-one c w = record {
  visited = λ h v. ground (arith, contains-add c h w.visited);
  queued = λ h q. ground (arith, contains-append h w.queue (c ∷ []));
  fresh = λ h v. ground (arith, contains-add c h w.visited, contains-append h w.queue (c ∷ []));
  storage = classify-storage c w.dag;
  coloured = λ all h v. elim (Bool-cases (c == h)) [
    | inl e ↦ subst (IsColoured (classify c w.dag)) ((==_iff c h).0 e) (classify_colours c w.dag)
    | inr n ↦ classify_keeps c h w.dag (all h (ground (arith, contains-add c h w.visited)))
  ];
}

Extends-trans : (u v w : Walk) → Extends u v → Extends v w → Extends u w
Extends-trans u v w a b = record {
  visited = λ h x. b.visited h (a.visited h x);
  queued = λ h x. b.queued h (a.queued h x);
  fresh = λ h x. elim (b.fresh h x) [
    | inr q ↦ inr q
    | inl y ↦ elim (a.fresh h y) [ inl z ↦ inl z | inr q ↦ inr (b.queued h q) ]
  ];
  storage = cc (a.storage, b.storage);
  coloured = λ all. b.coloured (a.coloured all);
}

Extends-refl : (w : Walk) → Extends w w
Extends-refl w = record {
  visited = λ h v. v;
  queued = λ h q. q;
  fresh = λ h v. inl v;
  storage = refl;
  coloured = λ all. all;
}

visit-Extends : (cs : List ℕ) (w : Walk) → Extends w (visit cs w)
unfolding visit
visit-Extends [] w = Extends-refl w
visit-Extends (c ∷ cs) w = elim (Bool-cases (contains c w.visited)) [
  | inl old ↦ rw (old, visit) (visit-Extends cs w)
  | inr new ↦
      rw (new, visit)
        (Extends-trans w (visit_one c w) (visit cs (visit_one c w)) (Extends-one c w)
          (visit-Extends cs (visit_one c w)))
]

-- The child is visited, now or before.
abbrev enter : ℕ → Walk → Walk
enter c w = if contains c w.visited then w else visit_one c w

entered : (c : ℕ) (w : Walk) → contains c (enter c w).visited ≡ true
entered c w = ground (arith, contains-add c c w.visited)

visit_covers :
    (cs : List ℕ) (w : Walk) (x : ℕ) → contains x cs ≡ true → contains x (visit cs w).visited ≡ true
unfolding visit contains
visit_covers [] w x h = cc
visit_covers (c ∷ cs) w x h = elim (Bool-cases (c == x)) [
  | inl e ↦
      (visit-Extends cs (enter c w)).visited x
        (subst (λ y. contains y (enter c w).visited ≡ true) ((==_iff c x).0 e) (entered c w))
  | inr n ↦ visit_covers cs (enter c w) x (ground arith)
]

step-IsFair :
    (s : DagStorage) (w : Walk) (h : ℕ) (rest : List ℕ)
    → w.queue ≡ h ∷ rest
    → IsFair s w
    → IsFair s (visit (get_children h s) (record w { queue = rest }))
unfolding contains
step-IsFair s w h rest e f =
    let w' : Walk = record w { queue = rest } in
    let x = visit-Extends (get_children h s) w' in
    record {
      same = cc (x.storage, f.same);
      coloured = x.coloured f.coloured;
      closed = λ j c v m. elim (x.fresh j v) [
        | inr q ↦ inl q
        | inl old ↦ elim (f.closed j c old m) [
          | inr seen ↦ inr (x.visited c seen)
          | inl queued ↦ elim (Bool-cases (h == j)) [
            | inl here ↦ inr (
                visit_covers (get_children h s) w' c
                  (subst (λ y. contains c (get_children y s) ≡ true) (sym ((==_iff h j).0 here)) m))
            | inr there ↦ inl (x.queued j (ground arith))
          ]
        ]
      ];
    }

bfs-IsFair : (fuel : ℕ) (s : DagStorage) (w : Walk) → IsFair s w → IsFair s (bfs fuel w)
unfolding bfs
bfs-IsFair zero s w f = f
bfs-IsFair (suc fuel) s w f = elim (queue-cases w.queue) [
  | inl e ↦ rw (e, bfs) f
  | inr (h, rest, e) ↦
      rw (e, bfs)
        (bfs-IsFair fuel s (visit (get_children h w.dag.storage) (record w { queue = rest })) (
          subst (λ t. IsFair s (visit (get_children h t) (record w { queue = rest }))) (sym f.same)
            (step-IsFair s w h rest e f)))
]

bfs_keeps :
    (fuel : ℕ) (w : Walk) (x : ℕ)
    → contains x w.visited ≡ true
    → contains x (bfs fuel w).visited ≡ true
unfolding bfs
bfs_keeps zero w x v = v
bfs_keeps (suc fuel) w x v = elim (queue-cases w.queue) [
  | inl e ↦ rw (e, bfs) v
  | inr (h, rest, e) ↦
      let cs = get_children h w.dag.storage in
      let w' : Walk = record w { queue = rest } in
      rw (e, bfs) (bfs_keeps fuel (visit cs w') x ((visit-Extends cs w').visited x v))
]

first_walk : ℕ → GhostDag → Walk
first_walk genesis g = record {
  queue = genesis ∷ [];
  visited = genesis ∷ [];
  dag = start genesis g;
}

first_walk-IsFair : (genesis : ℕ) (g : GhostDag) → IsFair g.storage (first_walk genesis g)
unfolding first_walk start contains
first_walk-IsFair genesis g = record {
  same = refl;
  coloured = λ h v. inr (inl v);
  closed = λ h c v m. inl v;
}

descendant_visited :
    (s : DagStorage) (a h : ℕ) (w : Walk)
    → IsFair s w
    → w.queue ≡ []
    → contains a w.visited ≡ true
    → Descends s a h
    → contains h w.visited ≡ true
unfolding contains
descendant_visited s a h w f e v self = v
descendant_visited s a h w f e v (child j _ d m) =
    elim (f.closed j h (descendant_visited s a j w f e v d) m) [
      | inl q ↦ absurd (ground arith)
      | inr seen ↦ seen
    ]

-- The full classification colours every descendant of the genesis block that is stored blue or red.
pub walk_from_colours :
    (genesis h : ℕ) (g : GhostDag)
    → Descends g.storage genesis h
    → IsColoured (walk_from genesis g) h
unfolding walk_from first_walk contains
walk_from_colours genesis h g d =
    let w = bfs (fuel_for g) (first_walk genesis g) in
    let f =
      bfs-IsFair (fuel_for g) g.storage (first_walk genesis g) (first_walk-IsFair genesis g) in
    f.coloured h (
      descendant_visited g.storage genesis h w f (bfs-fuel_for genesis g)
        (bfs_keeps (fuel_for g) (first_walk genesis g) genesis (ground arith)) d)
