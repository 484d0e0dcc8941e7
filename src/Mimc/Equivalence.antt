-- ===== src/Mimc/Equivalence.antt =====
-- The hash with the cache is the hash without it.
use zk_obs.Common.{
  ℕ, zero, suc, ◌+◌, ◌*◌, ◌%◌, ◌≡◌, refl, sym, ap, ◌∙◌, Bool, true, false, some, List, [], ◌∷◌,
  ◌==◌, ◌&&◌, if◌then◌else◌, arith, Bool-cases, Option-cases, ==_iff, inl, inr,
}
use mathlib.Core.Path.{subst}
use native.Mathlib.Nat.{mul_comm}
use zk_obs.Mimc.{mimc7_from, mimc7_91, multi_from, multi_mimc7_91, constant_at}
use zk_obs.Mimc.Constants.{snark, c}
use zk_obs.Mimc.Cached.{
  CacheKey, number, joined, same_list, same_key, Cache, get_cache, set_cache, Hashed, rounds_from,
  hash_rounds, cached, store, hash, multi_hash_from, multi_hash,
}

-- The two forms of what is raised to the seventh power in round `i`.
abbrev sum_dp : ℕ → ℕ → ℕ → ℕ → ℕ
sum_dp i x k ret = if i == 0 then k + x else k + ret + constant_at c i

abbrev sum_plain : ℕ → ℕ → ℕ → ℕ → ℕ
sum_plain i x k ret = if i == 0 then x + k else ret + (k + constant_at c i)

same_sum : (i x k ret : ℕ) → sum_dp i x k ret ≡ sum_plain i x k ret
same_sum i x k ret = elim (Bool-cases (i == 0)) [
  | inl first ↦ rw first (omega arith)
  | inr later ↦ rw later (omega arith)
]

abbrev sixth : ℕ → ℕ
sixth t = t * t * (t * t) * (t * t)

same_round :
    (i x k ret : ℕ)
    → sixth (sum_dp i x k ret) * sum_dp i x k ret % snark
      ≡ sum_plain i x k ret * sixth (sum_plain i x k ret) % snark
same_round i x k ret =
    ap (λ t. sixth t * t % snark) (same_sum i x k ret)
    ∙ ap (λ w. w % snark) (mul_comm (sixth (sum_plain i x k ret)) (sum_plain i x k ret))

rounds_from-mimc7_from :
    (count i x k ret : ℕ) → rounds_from count i x k ret ≡ mimc7_from count i x k ret
unfolding rounds_from mimc7_from
rounds_from-mimc7_from zero i x k ret = refl
rounds_from-mimc7_from (suc count) i x k ret =
    rounds_from-mimc7_from count (i + 1) x k (sixth (sum_dp i x k ret) * sum_dp i x k ret % snark)
    ∙ ap (mimc7_from count (i + 1) x k) (same_round i x k ret)

-- The two files have the same loops, with the terms in another order.
pub hash_rounds-mimc7_91 : (x k : ℕ) → hash_rounds x k ≡ mimc7_91 x k
unfolding hash_rounds mimc7_91
hash_rounds-mimc7_91 x k = ap (λ t. (t + k) % snark) (rounds_from-mimc7_from 91 0 x k 0)

-- What a key of the cache stands for.
abbrev pub result_of : CacheKey → ℕ → ℕ
result_of (number x) k = mimc7_91 x k
result_of (joined xs) k = multi_mimc7_91 xs k

-- Every result in the cache is the hash of its key.
abbrev pub IsSound : Cache → Type 0
IsSound cache = (key : CacheKey) (k v : ℕ) → get_cache key k cache ≡ some v → v ≡ result_of key k

same_list-eq : (xs ys : List ℕ) → same_list xs ys ≡ true → xs ≡ ys
same_list-eq [] [] e = refl
same_list-eq [] (y ∷ ys) e = cc
same_list-eq (x ∷ xs) [] e = cc
same_list-eq (x ∷ xs) (y ∷ ys) e =
    let first : (x == y) ≡ true = ground arith in
    let rest : same_list xs ys ≡ true = ground arith in
    ap (λ z. z ∷ xs) ((==_iff x y).0 first) ∙ ap (λ zs. y ∷ zs) (same_list-eq xs ys rest)

same_key-eq : (a b : CacheKey) → same_key a b ≡ true → a ≡ b
same_key-eq (number x) (number y) e = ap number ((==_iff x y).0 e)
same_key-eq (number x) (joined ys) e = cc
same_key-eq (joined xs) (number y) e = cc
same_key-eq (joined xs) (joined ys) e = ap joined (same_list-eq xs ys e)

get_cache-set_cache :
    (key key' : CacheKey) (k k' v : ℕ) (cache : Cache)
    → get_cache key' k' (set_cache key k v cache)
      ≡ (if k' == k && same_key key' key then some v else get_cache key' k' cache)
unfolding set_cache get_cache
get_cache-set_cache key key' k k' v cache = elim (Bool-cases (k' == k)) [
  | inl same ↦
      let e : cache k' ≡ cache k = ap cache ((==_iff k' k).0 same) in
      elim (Option-cases (cache k)) [
        | inl missing ↦ ground arith
        | inr (results, found) ↦ ground arith
      ]
  | inr other ↦ elim (Option-cases (cache k)) [
    | inl missing ↦ ground arith
    | inr (results, found) ↦ ground arith
  ]
]

set_cache-IsSound :
    (key : CacheKey) (k v : ℕ) (cache : Cache)
    → v ≡ result_of key k
    → IsSound cache
    → IsSound (set_cache key k v cache)
set_cache-IsSound key k v cache right sound key' k' w e =
    let now = get_cache-set_cache key key' k k' v cache in
    elim (Bool-cases (k' == k && same_key key' key)) [
      | inl same ↦
          let at_k : (k' == k) ≡ true = ground arith in
          let at_key : same_key key' key ≡ true = ground arith in
          let new : v ≡ w = ground arith in
          sym new
          ∙ right
          ∙ ap (λ key. result_of key k) (sym (same_key-eq key' key at_key))
          ∙ ap (result_of key') (sym ((==_iff k' k).0 at_k))
      | inr other ↦ sound key' k' w (ground arith)
    ]

cached-IsSound :
    (enabled : Bool) (key : CacheKey) (k v : ℕ) (cache : Cache)
    → IsSound cache
    → cached enabled key k cache ≡ some v
    → v ≡ result_of key k
cached-IsSound false key k v cache sound e = cc
cached-IsSound true key k v cache sound e = elim (Option-cases (get_cache key k cache)) [
  | inl missing ↦ absurd (ground arith)
  | inr (w, found) ↦ sound key k v (ground arith)
]

store-IsSound :
    (enabled : Bool) (key : CacheKey) (k v : ℕ) (cache : Cache)
    → v ≡ result_of key k
    → IsSound cache
    → IsSound (store enabled key k v cache)
store-IsSound false key k v cache right sound = sound
store-IsSound true key k v cache right sound = set_cache-IsSound key k v cache right sound

-- The value is the one of the hash without the cache, and the cache stays sound.
abbrev pub IsRight : ℕ → Hashed → Type 0
IsRight v h = (h.value ≡ v) × IsSound h.cache

module _ (enabled : Bool) where
  pub hash_lem :
      (x k : ℕ) (cache : Cache) → IsSound cache → IsRight (mimc7_91 x k) (hash enabled x k cache)
  unfolding hash
  hash_lem x k cache sound = elim (Option-cases (cached enabled (number x) k cache)) [
    | inl missing ↦
        rw (missing, hash)
          (
            hash_rounds-mimc7_91 x k,
            store-IsSound enabled (number x) k (hash_rounds x k) cache (hash_rounds-mimc7_91 x k)
                sound,
          )
    | inr (v, found) ↦
        rw (found, hash) (cached-IsSound enabled (number x) k v cache sound found, sound)
  ]

  multi_hash_from_lem :
      (xs : List ℕ) (r : ℕ) (cache : Cache)
      → IsSound cache
      → IsRight (multi_from xs r) (multi_hash_from enabled xs r cache)
  unfolding multi_hash_from multi_from
  multi_hash_from_lem [] r cache sound = (refl, sound)
  multi_hash_from_lem (x ∷ xs) r cache sound =
      let h = hash enabled x r cache in
      let (value, kept) = hash_lem x r cache sound in
      subst
        (λ v.
          IsRight (multi_from xs ((v + r + x) % snark))
            (multi_hash_from enabled xs ((h.value + r + x) % snark) h.cache))
        value (multi_hash_from_lem xs ((h.value + r + x) % snark) h.cache kept)

  -- On a cache whose results are the hashes of their keys, `multiHash` returns what
  -- `MultiMiMC7_91` does, and leaves such a cache, whether the cache is in use or not.
  pub multi_hash_lem :
      (xs : List ℕ) (k : ℕ) (cache : Cache)
      → IsSound cache
      → IsRight (multi_mimc7_91 xs k) (multi_hash enabled xs k cache)
  unfolding multi_hash multi_mimc7_91
  multi_hash_lem xs k cache sound = elim (Option-cases (cached enabled (joined xs) k cache)) [
    | inl missing ↦
        let (value, kept) = multi_hash_from_lem xs k cache sound in
        let h = multi_hash_from enabled xs k cache in
        rw (missing, multi_hash)
          (value, store-IsSound enabled (joined xs) k h.value h.cache value kept)
    | inr (v, found) ↦
        rw (found, multi_hash) (cached-IsSound enabled (joined xs) k v cache sound found, sound)
  ]
