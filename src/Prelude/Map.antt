-- ===== src/Prelude/Map.antt =====
-- `HashMap` as an association list: the first entry of a key is the one that is read. The order of
-- the entries stands for the order in which the table would be iterated, which Rust leaves open.
use mathlib.Core.Path.{◌≡◌, refl}
use mathlib.Core.Bool.{Bool, true, false}
use mathlib.Core.List.{List, [], ◌∷◌}
use mathlib.Core.Option.{Option, none, some}
use native.Mathlib.Omega.{arith}
use iron_dag.Prelude.Tests.{if◌then◌else◌}
use iron_dag.Prelude.Eq.{Eq}

abbrev pub Map {ℓ κ} : Type ℓ → Type κ → Type (ℓ ⊔ κ)
Map K V = List (K × V)

module _ {ℓ κ} {K : Type ℓ} {V : Type κ} ⦃e : Eq K⦄ where
  unfoldable pub get : K → Map K V → Option V
  get k [] = none
  get k ((j, v) ∷ m) = if e.beq j k then some v else get k m

  unfoldable pub insert : K → V → Map K V → Map K V
  insert k v [] = (k, v) ∷ []
  insert k v ((j, w) ∷ m) = if e.beq j k then (k, v) ∷ m else (j, w) ∷ insert k v m

  unfoldable pub remove : K → Map K V → Map K V
  remove k [] = []
  remove k ((j, w) ∷ m) = if e.beq j k then remove k m else (j, w) ∷ remove k m

  abbrev pub contains_key : K → Map K V → Bool
  contains_key k m = elim (get k m) [ none ↦ false | some _ ↦ true ]

  pub get-insert :
      (k j : K) (v : V) (m : Map K V)
      → get j (insert k v m) ≡ (if e.beq k j then some v else get j m)
  unfolding get insert
  get-insert k j v [] = refl
  get-insert k j v ((i, w) ∷ m) =
      ground (arith, e.beq_iff k j, e.beq_iff i k, e.beq_iff i j, get-insert k j v m)

  pub get-remove :
      (k j : K) (m : Map K V) → get j (remove k m) ≡ (if e.beq k j then none else get j m)
  unfolding get remove
  get-remove k j [] = ground arith
  get-remove k j ((i, w) ∷ m) =
      ground (arith, e.beq_iff k j, e.beq_iff i k, e.beq_iff i j, get-remove k j m)

-- `get_mut` and a change of the entry, with its answer.
unfoldable pub change_entry {ℓ κ μ} :
    {K : Type ℓ} {V : Type κ} {E : Type μ}
    → ⦃e : Eq K⦄ → E
    → (V → E × V)
    → K
    → Map K V
    → E × Map K V
change_entry missing f k m = elim (get k m) [
  | none ↦ (missing, m)
  | some v ↦ let changed = f v in (changed.0, insert k changed.1 m)
]

pub get-change_entry {ℓ κ μ} :
    {K : Type ℓ} {V : Type κ} {E : Type μ}
    → ⦃e : Eq K⦄ → (missing : E) (f : V → E × V) (k : K) (m : Map K V) (v : V) → get k m ≡ some v
    → get k (change_entry missing f k m).1 ≡ some (f v).1
unfolding change_entry
get-change_entry ⦃e⦄ missing f k m v h =
    let found = get-insert k k (f v).1 m in ground (arith, h, found, e.beq_iff k k)

pub ruleset map_laws = (get-insert, get-remove)
