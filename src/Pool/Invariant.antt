-- ===== src/Pool/Invariant.antt =====
-- What holds of a pool after any sequence of deposits and withdrawals.
use Prim.Native.Nat.{ℕ, suc, ◌+◌, ◌≤◌}
use mathlib.Core.Path.{◌≡◌, refl}
use mathlib.Core.Logic.{inl, inr}
use mathlib.Core.Bool.{Bool, false, ◌||◌}
use mathlib.Core.List.{List, [], ◌∷◌, ◌++◌}
use mathlib.Core.Option.{Option}
use native.Mathlib.Omega.{arith}
use iron_dag.Prelude.Tests.{◌==◌, if◌then◌else◌, Bool-cases}
use iron_dag.Prelude.Lists.{length}
use iron_dag.Prelude.Eq.{nat_eq}
use iron_dag.Prelude.HashSet.{contains, contains-add}
use iron_dag.Pool.{PoolDeposit, PrivacyPool, PoolResult, ok, err, new, deposit, withdraw}

-- Each deposit has its position for a leaf index, and no commitment stands twice.
abbrev pub IsNumbered : ℕ → List PoolDeposit → Type 0
IsNumbered i [] = Unit
IsNumbered i (d ∷ ds) = (d.leaf_index ≡ i) × IsNumbered (suc i) ds

pub holds : ℕ → List PoolDeposit → Bool
holds c [] = false
holds c (d ∷ ds) = (d.commitment == c) || holds c ds

abbrev pub IsDistinct : List PoolDeposit → Type 0
IsDistinct [] = Unit
IsDistinct (d ∷ ds) = (holds d.commitment ds ≡ false) × IsDistinct ds

pub record IsValid (p : PrivacyPool) : Type 0 where
  pub indexed : (c : ℕ) → contains c p.commitment_set ≡ holds c p.deposits
  pub numbered : IsNumbered 0 p.deposits
  pub distinct : IsDistinct p.deposits

new-IsValid : (denomination : ℕ) (require_proof : Bool) → IsValid (new denomination require_proof)
unfolding new holds contains
new-IsValid d r = record { indexed = λ c. refl; numbered = tt; distinct = tt }

holds-append :
    (c : ℕ) (ds : List PoolDeposit) (d : PoolDeposit)
    → holds c (ds ++ d ∷ []) ≡ (holds c ds || (d.commitment == c))
unfolding holds
holds-append c [] d = ground arith
holds-append c (x ∷ ds) d = ground (arith, holds-append c ds d)

IsNumbered-append :
    (i : ℕ) (ds : List PoolDeposit) (d : PoolDeposit)
    → IsNumbered i ds
    → d.leaf_index ≡ i + length ds
    → IsNumbered i (ds ++ d ∷ [])
IsNumbered-append i [] d h e = (omega arith, tt)
IsNumbered-append i (x ∷ ds) d h e = (h.0, IsNumbered-append (suc i) ds d h.1 (omega arith))

IsDistinct-append :
    (ds : List PoolDeposit) (d : PoolDeposit)
    → IsDistinct ds
    → holds d.commitment ds ≡ false
    → IsDistinct (ds ++ d ∷ [])
unfolding holds
IsDistinct-append [] d h e = (refl, tt)
IsDistinct-append (x ∷ ds) d h e =
    (ground (arith, holds-append x.commitment ds d), IsDistinct-append ds d h.1 (ground arith))

deposit-IsValid : (c b : ℕ) (p : PrivacyPool) → IsValid p → IsValid (deposit c b p).1
unfolding deposit
deposit-IsValid c b p v = elim (Bool-cases (contains c p.commitment_set)) [
  | inl old ↦ rw old v
  | inr fresh ↦ rw fresh (record {
    indexed = λ x. ground (
      arith,
      contains-add c x p.commitment_set,
      v.indexed x,
      holds-append x p.deposits (entry c b p),
    );
    numbered = IsNumbered-append 0 p.deposits (entry c b p) v.numbered (omega arith);
    distinct = IsDistinct-append p.deposits (entry c b p) v.distinct (ground (arith, v.indexed c));
  })
]
  where
    entry : ℕ → ℕ → PrivacyPool → PoolDeposit
    entry c b p = record { commitment = c; block_number = b; leaf_index = length p.deposits }

same-IsValid :
    (p q : PrivacyPool)
    → q.deposits ≡ p.deposits
    → q.commitment_set ≡ p.commitment_set
    → IsValid p
    → IsValid q
same-IsValid p q e f v = record {
  indexed = λ c. rw (e, f) (v.indexed c);
  numbered = rw e v.numbered;
  distinct = rw e v.distinct;
}

withdraw_keeps :
    (n : ℕ) (proof : Option (List ℕ)) (p : PrivacyPool)
    → ((withdraw n proof p).1.deposits ≡ p.deposits)
      × ((withdraw n proof p).1.commitment_set ≡ p.commitment_set)
unfolding withdraw
withdraw_keeps n proof p = ground arith

withdraw-IsValid :
    (n : ℕ) (proof : Option (List ℕ)) (p : PrivacyPool) → IsValid p → IsValid (withdraw n proof p).1
withdraw-IsValid n proof p v =
    same-IsValid p (withdraw n proof p).1 (withdraw_keeps n proof p).0 (withdraw_keeps n proof p).1
      v

pub data Request : Type 0 where
  put : ℕ → ℕ → Request
  take_out : ℕ → Option (List ℕ) → Request

unfoldable pub serve : Request → PrivacyPool → PoolResult × PrivacyPool
serve (put c b) p = deposit c b p
serve (take_out n proof) p = withdraw n proof p

unfoldable pub run : List Request → PrivacyPool → PrivacyPool
unfolding serve
run [] p = p
run (r ∷ rs) p = run rs (serve r p).1

run_from-IsValid : (rs : List Request) (p : PrivacyPool) → IsValid p → IsValid (run rs p)
unfolding run
run_from-IsValid [] p v = v
run_from-IsValid (put c b ∷ rs) p v =
    run_from-IsValid rs (deposit c b p).1 (deposit-IsValid c b p v)
run_from-IsValid (take_out n proof ∷ rs) p v =
    run_from-IsValid rs (withdraw n proof p).1 (withdraw-IsValid n proof p v)

-- Whatever deposits and withdrawals a new pool has served, the set of its commitments is that of its
-- deposits, no commitment was taken twice, and the leaf index of a deposit is its position.
run-IsValid :
    (rs : List Request) (denomination : ℕ) (require_proof : Bool)
    → IsValid (run rs (new denomination require_proof))
run-IsValid rs d r = run_from-IsValid rs (new d r) (new-IsValid d r)

-- How often a sequence of requests pays out to a nullifier.
pub payouts : ℕ → List Request → PrivacyPool → ℕ
unfolding serve
payouts n [] p = 0
payouts n (put c b ∷ rs) p = payouts n rs (serve (put c b) p).1
payouts n (take_out m proof ∷ rs) p =
    (if m == n then elim (withdraw m proof p).0 [ ok _ ↦ 1 | err _ ↦ 0 ] else 0)
    + payouts n rs (serve (take_out m proof) p).1

deposit_keeps :
    (c b : ℕ) (p : PrivacyPool) → (deposit c b p).1.spent_nullifiers ≡ p.spent_nullifiers
unfolding deposit
deposit_keeps c b p = ground arith

-- What a withdrawal pays to a nullifier, and that it is spent from then on.
withdraw_pays :
    (n m : ℕ) (proof : Option (List ℕ)) (p : PrivacyPool)
    → let after : ℕ = if contains n (withdraw m proof p).1.spent_nullifiers then 0 else 1 in
      let before : ℕ = if contains n p.spent_nullifiers then 0 else 1 in
      (if m == n then elim (withdraw m proof p).0 [ ok _ ↦ 1 | err _ ↦ 0 ] else 0) + after ≤ before
unfolding withdraw
withdraw_pays n m proof p = ground (arith, contains-add m n p.spent_nullifiers)

-- A nullifier is paid once at most, and not at all once it is spent.
pub payouts_once :
    (n : ℕ) (rs : List Request) (p : PrivacyPool)
    → payouts n rs p ≤ (if contains n p.spent_nullifiers then 0 else 1)
unfolding payouts
payouts_once n [] p = omega arith
payouts_once n (put c b ∷ rs) p =
    ground (arith, payouts_once n rs (deposit c b p).1, deposit_keeps c b p)
payouts_once n (take_out m proof ∷ rs) p =
    ground (arith, payouts_once n rs (withdraw m proof p).1, withdraw_pays n m proof p)
