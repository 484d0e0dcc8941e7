-- ===== src/Tests/Hashes.antt =====
-- The MiMC7 hash, with and without its cache, at concrete inputs.
use zk_obs.Common.{arith, ◌==◌, Bool-cases, inl, inr, ◌≡◌, refl, true, none, [], ◌∷◌}
use zk_obs.Mimc.{mimc7_91, multi_mimc7_91}
use zk_obs.Mimc.Cached.{Cache, new_dp_mimc_cache, get_cache, multi_hash}
use zk_obs.Mimc.Equivalence.{IsSound, IsRight, multi_hash_lem}

abbrev empty_cache : Cache
empty_cache k = none

new_dp_mimc_cache-IsSound : IsSound (new_dp_mimc_cache empty_cache)
unfolding get_cache new_dp_mimc_cache
new_dp_mimc_cache-IsSound key k v e = elim (Bool-cases (k == 0)) [
  | inl same ↦ absurd (ground arith)
  | inr other ↦ absurd (ground arith)
]

multi_hash_lem_example :
    IsRight
      (multi_mimc7_91 (1 ∷ 2 ∷ []) 3)
      (multi_hash true (1 ∷ 2 ∷ []) 3 (new_dp_mimc_cache empty_cache))
multi_hash_lem_example =
    multi_hash_lem true (1 ∷ 2 ∷ []) 3 (new_dp_mimc_cache empty_cache) new_dp_mimc_cache-IsSound

mimc7_91_runs :
    mimc7_91 1 2 ≡ 10594780656576967754230020536574539122676596303354946869887184401991294982664
unfolding mimc7_91
mimc7_91_runs = refl
