-- ===== src/Dag/Full/Sorted.antt =====
-- The ordering that the full classification leaves.
use Prim.Native.Nat.{ℕ, suc}
use mathlib.Core.Path.{◌≡◌, refl}
use mathlib.Core.Logic.{inl, inr}
use mathlib.Core.Bool.{Bool, true}
use mathlib.Core.List.{List, [], ◌∷◌}
use native.Mathlib.Omega.{arith}
use iron_dag.Prelude.Tests.{if◌then◌else◌, Bool-cases}
use iron_dag.Dag.Full.{Entry, comes_before, insert_entry, sort_entries}

abbrev pub AllEntries : (Entry → Type 0) → List Entry → Type 0
AllEntries P [] = Unit
AllEntries P (e ∷ es) = P e × AllEntries P es

-- Each entry may stand before all that follow it.
abbrev pub AreSorted : List Entry → Type 0
AreSorted [] = Unit
AreSorted (e ∷ es) = AllEntries (λ x. comes_before e x ≡ true) es × AreSorted es

pub count : (Entry → Bool) → List Entry → ℕ
count p [] = 0
count p (e ∷ es) = if p e then suc (count p es) else count p es

AllEntries-insert :
    (P : Entry → Type 0) (e : Entry) (es : List Entry)
    → P e
    → AllEntries P es
    → AllEntries P (insert_entry e es)
unfolding insert_entry
AllEntries-insert P e [] p a = (p, tt)
AllEntries-insert P e (x ∷ xs) p a = elim (Bool-cases (comes_before e x)) [
  | inl before ↦ rw before (p, a)
  | inr after ↦ rw after (a.0, AllEntries-insert P e xs p a.1)
]

before_all :
    (e x : Entry) (xs : List Entry)
    → comes_before e x ≡ true
    → AllEntries (λ y. comes_before x y ≡ true) xs
    → AllEntries (λ y. comes_before e y ≡ true) xs
before_all e x [] h a = tt
before_all e x (y ∷ xs) h a = (ground arith, before_all e x xs h a.1)

insert_entry-AreSorted :
    (e : Entry) (es : List Entry) → AreSorted es → AreSorted (insert_entry e es)
unfolding insert_entry
insert_entry-AreSorted e [] s = (tt, tt)
insert_entry-AreSorted e (x ∷ xs) s = elim (Bool-cases (comes_before e x)) [
  | inl before ↦ rw before ((before, before_all e x xs before s.0), s)
  | inr after ↦ rw after (
    AllEntries-insert (λ y. comes_before x y ≡ true) e xs (ground arith) s.0,
    insert_entry-AreSorted e xs s.1,
  )
]

count-insert :
    (p : Entry → Bool) (e : Entry) (es : List Entry)
    → count p (insert_entry e es) ≡ count p (e ∷ es)
unfolding count insert_entry
count-insert p e [] = refl
count-insert p e (x ∷ xs) = ground (arith, count-insert p e xs)

-- The full sort puts the entries by falling scores, and by rising timestamps among equal scores; it
-- is a permutation: of any kind of entry there are as many as before.
sort_entries-AreSorted :
    (es : List Entry)
    → AreSorted (sort_entries es) × ((p : Entry → Bool) → count p (sort_entries es) ≡ count p es)
unfolding sort_entries count
sort_entries-AreSorted [] = (tt, λ p. refl)
sort_entries-AreSorted (e ∷ es) =
    let (s, same) = sort_entries-AreSorted es in
    (
      insert_entry-AreSorted e (sort_entries es) s,
      λ p. ground (arith, count-insert p e (sort_entries es), same p),
    )
