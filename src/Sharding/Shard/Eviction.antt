-- ===== src/Sharding/Shard/Eviction.antt =====
-- The pool of a shard as a queue of bounded length.
use Prim.Native.Nat.{ℕ, zero, suc, ◌+◌, ◌-◌, ◌≤◌}
use mathlib.Core.Path.{◌≡◌, refl, sym}
use mathlib.Core.List.{List, [], ◌∷◌, ◌++◌, append_assoc, append-nil}
use native.Mathlib.Omega.{arith}
use mathlib.Core.Logic.{inl, inr}
use iron_dag.Prelude.Tests.{leb, Bool-cases}
use iron_dag.Prelude.Lists.{length, take, drop, length-append}
use iron_dag.Ledger.Types.{Transaction}
use iron_dag.Sharding.Shard.{
  Shard, max_shard_tx_pool_size, evict_front, add_transaction, pop_fronts, remove_transactions,
}

-- Transactions that are added one after the other.
unfoldable pub add_all : List Transaction → Shard → Shard
add_all [] s = s
add_all (tx ∷ txs) s = add_all txs (add_transaction tx s)

evict_front-drop :
    (xs : List Transaction) → evict_front xs ≡ drop (suc (length xs) - max_shard_tx_pool_size) xs
unfolding evict_front
evict_front-drop [] = ground arith
evict_front-drop (x ∷ xs) = elim (Bool-cases (leb max_shard_tx_pool_size (length (x ∷ xs)))) [
  | inl full ↦
      let more : suc (suc (length xs)) - max_shard_tx_pool_size
          ≡ suc (suc (length xs) - max_shard_tx_pool_size) =
        ground arith in
      rw (evict_front, full, more) (evict_front-drop xs)
  | inr free ↦
      let none_more : suc (suc (length xs)) - max_shard_tx_pool_size ≡ 0 = ground arith in
      rw (evict_front, free, none_more) refl
]

drop-nil : (n : ℕ) → drop {A = Transaction} n [] ≡ []
drop-nil zero = refl
drop-nil (suc n) = refl

take-nil : (n : ℕ) → take {A = Transaction} n [] ≡ []
take-nil zero = refl
take-nil (suc n) = refl

drop-append_within :
    (n : ℕ) (xs ys : List Transaction) → n ≤ length xs → drop n xs ++ ys ≡ drop n (xs ++ ys)
drop-append_within zero xs ys h = refl
drop-append_within (suc n) [] ys h = absurd (omega arith)
drop-append_within (suc n) (x ∷ xs) ys h = drop-append_within n xs ys (omega arith)

drop-drop : (m n : ℕ) (xs : List Transaction) → drop m (drop n xs) ≡ drop (n + m) xs
drop-drop m zero xs = ground arith
drop-drop m (suc n) [] = ground (arith, drop-nil m, drop-nil (suc n + m))
drop-drop m (suc n) (x ∷ xs) =
    let next : suc n + m ≡ suc (n + m) = omega arith in rw next (drop-drop m n xs)

length-drop : (n : ℕ) (xs : List Transaction) → length (drop n xs) ≡ length xs - n
length-drop zero xs = omega arith
length-drop (suc n) [] = omega arith
length-drop (suc n) (x ∷ xs) = ground (arith, length-drop n xs)

-- The newest transactions, as many as a pool holds.
unfoldable pub newest : List Transaction → List Transaction
newest xs = drop (length xs - max_shard_tx_pool_size) xs

newest-append : (xs ys : List Transaction) → newest (newest xs ++ ys) ≡ newest (xs ++ ys)
unfolding newest
newest-append xs ys =
    let n = length xs - max_shard_tx_pool_size in
    let zs = xs ++ ys in
    let sum : n + (length zs - n - max_shard_tx_pool_size) ≡ length zs - max_shard_tx_pool_size =
      omega (arith, length-append xs ys) in
    rw
      (
        drop-append_within n xs ys (omega arith),
        length-drop n zs,
        drop-drop (length zs - n - max_shard_tx_pool_size) n zs,
        sum,
      )
      refl

pool-add_transaction :
    (tx : Transaction) (s : Shard)
    → (add_transaction tx s).transaction_pool ≡ newest (s.transaction_pool ++ (tx ∷ []))
unfolding add_transaction newest
pool-add_transaction tx s =
    let pool = s.transaction_pool in
    let n = suc (length pool) - max_shard_tx_pool_size in
    let same : length (pool ++ (tx ∷ [])) - max_shard_tx_pool_size ≡ n =
      omega (arith, length-append pool (tx ∷ [])) in
    rw (evict_front-drop pool, same, drop-append_within n pool (tx ∷ []) (omega arith)) refl

newest_again : (xs : List Transaction) → newest (newest xs) ≡ newest xs
newest_again xs = cc (newest-append xs [], append-nil (newest xs), append-nil xs)

newest_all : (xs : List Transaction) → length xs ≤ max_shard_tx_pool_size → newest xs ≡ xs
unfolding newest
newest_all xs h =
    let nothing : length xs - max_shard_tx_pool_size ≡ 0 = omega arith in rw nothing refl

pool-add_some :
    (txs : List Transaction) (s : Shard)
    → newest s.transaction_pool ≡ s.transaction_pool
    → (add_all txs s).transaction_pool ≡ newest (s.transaction_pool ++ txs)
unfolding add_all
pool-add_some [] s h = rw (append-nil s.transaction_pool) (sym h)
pool-add_some (tx ∷ txs) s h =
    let pool = s.transaction_pool in
    let step = pool-add_transaction tx s in
    let again : newest (add_transaction tx s).transaction_pool
        ≡ (add_transaction tx s).transaction_pool =
      rw step (newest_again (pool ++ (tx ∷ []))) in
    rw
      (
        pool-add_some txs (add_transaction tx s) again,
        step,
        newest-append (pool ++ (tx ∷ [])) txs,
        append_assoc pool (tx ∷ []) txs,
      )
      refl

pop_fronts-take : (n : ℕ) (xs : List Transaction) → pop_fronts n xs ≡ (take n xs, drop n xs)
unfolding pop_fronts
pop_fronts-take zero xs = refl
pop_fronts-take (suc n) [] = ground (arith, pop_fronts-take n [], drop-nil n, take-nil n)
pop_fronts-take (suc n) (x ∷ xs) = rw (pop_fronts-take n xs) refl

-- A pool that holds 50,000 transactions at most keeps the newest 50,000 of those that it held and
-- those that are added, in their order; a removal then gives the oldest of these, as many as it asks
-- for, and leaves the others.
pub remove_transactions-add_all :
    (txs : List Transaction) (s : Shard) (count : ℕ)
    → length s.transaction_pool ≤ max_shard_tx_pool_size
    → (((remove_transactions count (add_all txs s)).0
          ≡ take count (newest (s.transaction_pool ++ txs)))
        × ((remove_transactions count (add_all txs s)).1.transaction_pool
            ≡ drop count (newest (s.transaction_pool ++ txs))))
unfolding remove_transactions
remove_transactions-add_all txs s count h =
    let pool = pool-add_some txs s (newest_all s.transaction_pool h) in
    let popped = pop_fronts-take count (add_all txs s).transaction_pool in
    (rw (popped, pool) refl, rw (popped, pool) refl)
