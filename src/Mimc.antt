-- ===== src/Mimc.antt =====
-- backend/ts-sdk/src/domain/lib/mimc-hash.ts: the MiMC7 hash of numbers, for inputs that are natural.
pub mod Constants
pub mod Cached
pub mod Equivalence
use zk_obs.Common.{
  ℕ, zero, suc, ◌+◌, ◌*◌, ◌%◌, List, [], ◌∷◌, ◌==◌, if◌then◌else◌, get_elem?, none, some, Option,
}
use zk_obs.Mimc.Constants.{snark, c}

-- `c[i]`; the loops stay below the length of the list.
abbrev pub constant_at : List ℕ → ℕ → ℕ
constant_at cs i = elim (get_elem? cs i) [ none ↦ 0 | some x ↦ x ]

-- The loop of `MiMC7_91` from round `i` on, `count` rounds.
unfoldable pub mimc7_from : ℕ → ℕ → ℕ → ℕ → ℕ → ℕ
mimc7_from zero i x k ret = ret
mimc7_from (suc count) i x k ret =
    let t = if i == 0 then x + k else ret + (k + constant_at c i) in
    let t2 = t * t in let t4 = t2 * t2 in mimc7_from count (i + 1) x k (t * (t4 * t2) % snark)

unfoldable pub mimc7_91 : ℕ → ℕ → ℕ
unfolding mimc7_from
mimc7_91 x k = (mimc7_from 91 0 x k 0 + k) % snark

-- The loop of `MultiMiMC7_91`.
unfoldable pub multi_from : List ℕ → ℕ → ℕ
unfolding mimc7_91
multi_from [] r = r
multi_from (x ∷ xs) r = multi_from xs ((mimc7_91 x r + r + x) % snark)

unfoldable pub multi_mimc7_91 : List ℕ → ℕ → ℕ
unfolding multi_from
multi_mimc7_91 inputs k = multi_from inputs k
