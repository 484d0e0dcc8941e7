-- ===== src/Mimc/Cached.antt =====
-- backend/ts-sdk/src/domain/lib/mimc-hash-dp.ts: the same hash with a cache of results.
pub mod Constants
use zk_obs.Common.{
  ℕ, zero, suc, ◌+◌, ◌*◌, ◌%◌, Bool, true, false, Option, none, some, List, [], ◌∷◌, ◌==◌, ◌&&◌,
  if◌then◌else◌, length,
}
use zk_obs.Merkle.{put}
use zk_obs.Mimc.{constant_at}
use zk_obs.Mimc.Cached.Constants.{p, c}

abbrev pub default_k : ℕ
default_k = 0

abbrev pub n_rounds : ℕ
n_rounds = length c

-- A key of a map: a number, or the string that `join` makes of a list of numbers, which it makes of
-- no other list.
pub data CacheKey : Type 0 where
  number : ℕ → CacheKey
  joined : List ℕ → CacheKey

abbrev pub same_list : List ℕ → List ℕ → Bool
same_list [] [] = true
same_list [] (_ ∷ _) = false
same_list (_ ∷ _) [] = false
same_list (x ∷ xs) (y ∷ ys) = x == y && same_list xs ys

abbrev pub same_key : CacheKey → CacheKey → Bool
same_key (number x) (number y) = x == y
same_key (number x) (joined ys) = false
same_key (joined xs) (number y) = false
same_key (joined xs) (joined ys) = same_list xs ys

-- A map of results, and `mimc_dpt`, which has such a map for each `k`.
abbrev pub Results : Type 0
Results = CacheKey → Option ℕ

abbrev pub Cache : Type 0
Cache = ℕ → Option Results

abbrev pub set_result : CacheKey → ℕ → Results → Results
set_result key v results j = if same_key j key then some v else results j

-- The constructor of dpMimcCache.
unfoldable pub new_dp_mimc_cache : Cache → Cache
new_dp_mimc_cache cache = put cache default_k (λ key. none)

-- `getCache`: `none` stands for null and for undefined.
unfoldable pub get_cache : CacheKey → ℕ → Cache → Option ℕ
get_cache key k cache = elim (cache k) [ none ↦ none | some results ↦ results key ]

unfoldable pub set_cache : CacheKey → ℕ → ℕ → Cache → Cache
set_cache key k v cache = elim (cache k) [
  | none ↦ put cache k (set_result key v (λ j. none))
  | some results ↦ put cache k (set_result key v results)
]

pub record Hashed : Type 0 where
  pub value : ℕ
  pub cache : Cache

-- The loop of `hash` from round `i` on, `count` rounds.
unfoldable pub rounds_from : ℕ → ℕ → ℕ → ℕ → ℕ → ℕ
rounds_from zero i x_in k t7 = t7
rounds_from (suc count) i x_in k t7 =
    let t = if i == 0 then k + x_in else k + t7 + constant_at c i in
    let t2 = t * t in
    let t4 = t2 * t2 in let t6 = t4 * t2 in rounds_from count (i + 1) x_in k (t6 * t % p)

-- `hash` behind the test of the cache.
unfoldable pub hash_rounds : ℕ → ℕ → ℕ
unfolding rounds_from
hash_rounds x_in k = (rounds_from n_rounds 0 x_in k 0 + k) % p

-- `if (cache)`: a result of 0 is not taken from the cache.
abbrev pub cached : Bool → CacheKey → ℕ → Cache → Option ℕ
cached false key k cache = none
cached true key k cache = elim (get_cache key k cache) [
  | none ↦ none
  | some v ↦ if v == 0 then none else some v
]

abbrev pub store : Bool → CacheKey → ℕ → ℕ → Cache → Cache
store false key k v cache = cache
store true key k v cache = set_cache key k v cache

module _ (is_dp_enabled : Bool) where
  unfoldable pub hash : ℕ → ℕ → Cache → Hashed
  unfolding hash_rounds get_cache set_cache
  hash x_in k cache = elim (cached is_dp_enabled (number x_in) k cache) [
    | some v ↦ record { value = v; cache = cache }
    | none ↦
        let ret = hash_rounds x_in k in
        record { value = ret; cache = store is_dp_enabled (number x_in) k ret cache }
  ]

  -- The loop of `multiHash`.
  unfoldable pub multi_hash_from : List ℕ → ℕ → Cache → Hashed
  unfolding hash
  multi_hash_from [] r cache = record { value = r; cache = cache }
  multi_hash_from (x ∷ xs) r cache =
      let h = hash x r cache in multi_hash_from xs ((h.value + r + x) % p) h.cache

  unfoldable pub multi_hash : List ℕ → ℕ → Cache → Hashed
  unfolding multi_hash_from get_cache set_cache
  multi_hash x_in_s k cache = elim (cached is_dp_enabled (joined x_in_s) k cache) [
    | some v ↦ record { value = v; cache = cache }
    | none ↦
        let h = multi_hash_from x_in_s k cache in
        record { value = h.value; cache = store is_dp_enabled (joined x_in_s) k h.value h.cache }
  ]
