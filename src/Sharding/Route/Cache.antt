-- ===== src/Sharding/Route/Cache.antt =====
-- The cache of the routing keeps to the assignment.
use Prim.Native.Nat.{ℕ, suc, ◌≤◌, ◌<◌}
use mathlib.Core.Path.{◌≡◌, refl}
use mathlib.Core.Logic.{inl, inr}
use mathlib.Core.List.{List, [], ◌∷◌, map}
use mathlib.Core.Option.{some}
use native.Mathlib.Omega.{arith}
use native.Mathlib.Nat.{mod-lt}
use iron_dag.Prelude.Tests.{leb, Option-cases, Bool-cases}
use iron_dag.Prelude.Lists.{length}
use iron_dag.Prelude.Eq.{nat_eq}
use iron_dag.Prelude.Map.{Map, get, insert, remove, get-insert, get-remove}
use iron_dag.Sharding.Route.{
  ShardConfig, shard_cache_size, first_u64, evict_one, assign, address_byte, get_shard_for_address,
}

length-remove : (k : ℕ) (m : Map ℕ ℕ) → length (remove k m) ≤ length m
unfolding remove
length-remove k [] = omega arith
length-remove k ((j, v) ∷ m) = ground (arith, length-remove k m)

length-insert : (k v : ℕ) (m : Map ℕ ℕ) → length (insert k v m) ≤ suc (length m)
unfolding insert
length-insert k v [] = omega arith
length-insert k v ((j, w) ∷ m) = ground (arith, length-insert k v m)

length-evict_one : (m : Map ℕ ℕ) → suc (length (evict_one m)) ≤ suc (length m)
unfolding evict_one
length-evict_one [] = omega arith
length-evict_one ((k, v) ∷ m) = ground (arith, length-remove k ((k, v) ∷ m))

evict_one-lt : (m : Map ℕ ℕ) → 0 < length m → length (evict_one m) < length m
unfolding evict_one remove
evict_one-lt [] h = absurd (omega arith)
evict_one-lt ((k, v) ∷ m) h = ground (arith, length-remove k m)

get-evict_one : (a s : ℕ) (m : Map ℕ ℕ) → get a (evict_one m) ≡ some s → get a m ≡ some s
unfolding evict_one
get-evict_one a s [] e = e
get-evict_one a s ((k, v) ∷ m) e = ground (arith, get-remove k a ((k, v) ∷ m))

module _ (blake3 : ℕ → ℕ → ℕ) (config : ShardConfig) where
  -- What the cache holds is what is assigned, and there are 10,000 entries at most.
  pub record IsCache (cache : Map ℕ ℕ) : Type 0 where
    pub agrees : (a s : ℕ) → get a cache ≡ some s → s ≡ assign blake3 config a
    pub bounded : length cache ≤ shard_cache_size

  insert-agrees :
      (a : ℕ) (cache : Map ℕ ℕ)
      → ((b s : ℕ) → get b cache ≡ some s → s ≡ assign blake3 config b)
      → (b s : ℕ) → get b (insert a (assign blake3 config a) cache) ≡ some s
      → s ≡ assign blake3 config b
  insert-agrees a cache h b s e =
      ground (arith, get-insert a b (assign blake3 config a) cache, h b s)

  -- One look-up of a cache that agrees.
  looks_up :
      (a : ℕ) (cache : Map ℕ ℕ)
      → IsCache cache
      → ((get_shard_for_address blake3 config a cache).0 ≡ assign blake3 config a)
        × IsCache (get_shard_for_address blake3 config a cache).1
  unfolding get_shard_for_address
  looks_up a cache v = elim (Option-cases (get a cache)) [
    | inr (s, e) ↦ rw (get_shard_for_address, e) (v.agrees a s e, v)
    | inl e ↦ elim (Bool-cases (leb shard_cache_size (length cache))) [
      | inl full ↦
          rw (get_shard_for_address, e, full)
            (
              refl,
              record {
                agrees =
                    insert-agrees a (evict_one cache)
                      (λ b s f. v.agrees b s (get-evict_one b s cache f));
                bounded = ground (
                  arith,
                  v.bounded,
                  length-insert a (assign blake3 config a) (evict_one cache),
                  evict_one-lt cache,
                );
              },
            )
      | inr free ↦
          rw (get_shard_for_address, e, free)
            (
              refl,
              record {
                agrees = insert-agrees a cache v.agrees;
                bounded = ground (arith, length-insert a (assign blake3 config a) cache);
              },
            )
    ]
  ]

  -- Look-ups one after the other.
  unfoldable pub look_ups : List ℕ → Map ℕ ℕ → List ℕ × Map ℕ ℕ
  look_ups [] cache = ([], cache)
  look_ups (a ∷ rest) cache =
      let answer = get_shard_for_address blake3 config a cache in
      let rest = look_ups rest answer.1 in (answer.0 ∷ rest.0, rest.1)

  looks_up_all :
      (addresses : List ℕ) (cache : Map ℕ ℕ)
      → IsCache cache
      → ((look_ups addresses cache).0 ≡ map (assign blake3 config) addresses)
        × IsCache (look_ups addresses cache).1
  unfolding look_ups
  looks_up_all [] cache v = (refl, v)
  looks_up_all (a ∷ rest) cache v =
      let (answer, v') = looks_up a cache v in
      let (answers, v'') = looks_up_all rest (get_shard_for_address blake3 config a cache).1 v' in
      (rw (answer, answers) refl, v'')

  empty-IsCache : IsCache []
  unfolding get
  empty-IsCache = record { agrees = λ a s e. cc; bounded = omega arith }

  -- Any look-ups of a new manager, which starts with an empty cache, answer with the shards that the
  -- assignment strategy gives to the addresses, as if there were no cache, and the cache never holds
  -- more than 10,000 entries.
  pub look_ups-assign :
      (addresses : List ℕ)
      → ((look_ups addresses []).0 ≡ map (assign blake3 config) addresses)
        × (length (look_ups addresses []).1 ≤ shard_cache_size)
  look_ups-assign addresses =
      let (answers, v) = looks_up_all addresses [] empty-IsCache in (answers, v.bounded)

  -- An assigned shard is one of the shards.
  pub assign-lt : (a : ℕ) → 0 < config.shard_count → assign blake3 config a < config.shard_count
  unfolding assign
  assign-lt a h =
      ground (arith, mod-lt (first_u64 (address_byte a)) h, mod-lt (first_u64 (blake3 a)) h)
