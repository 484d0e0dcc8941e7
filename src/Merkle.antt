-- ===== src/Merkle.antt =====
-- The Merkle tree of hashes in node rows: backend/common/ts-typeorm/src/common/tsMerkleTree.ts, and
-- the loop over the path of a leaf that the three tree services share word for word.
pub mod Levels
pub mod Climb
pub mod Rounding
pub mod Proofs
use zk_obs.Common.{
  Bool, leb, ◌-◌, ◌*◌, ℕ, zero, suc, ◌+◌, ◌-◌, ◌/◌, ◌%◌, ◌^◌, Option, none, some, List, [], ◌∷◌,
  ltb, ◌==◌, if◌then◌else◌,
}
use zk_obs.Common.Int.{ℤ, pos}
use zk_obs.Common.Action.{
  Action, Result, ok, err, default_hash_null, ◌>>=◌, ◌>>◌, modify, gets, of_result,
}

-- What a read through a repository sees while a transaction of the same service is open: only what
-- is committed, as when the transaction has a connection of its own, or its writes too.
pub data Isolation : Type 0 where
  read_committed shared : Isolation

-- The rows of one tree, by node id: what is committed, and what the open transaction wrote.
pub record Nodes : Type 0 where
  pub committed : ℕ → Option ℕ
  pub pending : ℕ → Option ℕ

abbrev pub put {ℓ} : {A : Type ℓ} → (ℕ → Option A) → ℕ → A → ℕ → Option A
put f k v j = if j == k then some v else f j

abbrev pub or_else {ℓ} : {A : Type ℓ} → Option A → Option A → Option A
or_else none b = b
or_else (some a) b = some a

abbrev pub no_rows : ℕ → Option ℕ
no_rows _ = none

-- The rows that one connection sees: its own writes over the committed ones.
abbrev pub overlay : Nodes → ℕ → Option ℕ
overlay n i = or_else (n.pending i) (n.committed i)

abbrev pub commit_nodes : Nodes → Nodes
commit_nodes n = record { committed = overlay n; pending = no_rows }

abbrev pub drop_pending : Nodes → Nodes
drop_pending n = record n { pending = no_rows }

-- `repository.findOneBy({ id })`
abbrev pub find_node : Isolation → ℕ → Nodes → Option ℕ
find_node read_committed i n = n.committed i
find_node shared i n = overlay n i

-- `manager.upsert(Node, { id, hash }, ['id'])`
abbrev pub manager_upsert : ℕ → ℕ → Nodes → Nodes
manager_upsert i h n = record n { pending = put n.pending i h }

-- `repository.upsert({ id, hash }, ['id'])` and `repository.insert`, which commit by themselves.
abbrev pub repository_upsert : Isolation → ℕ → ℕ → Nodes → Nodes
repository_upsert read_committed i h n = record n { committed = put n.committed i h }
repository_upsert shared i h n = manager_upsert i h n

-- The sibling of a node.
unfoldable pub sibling : ℕ → ℕ
sibling i = if i % 2 == 0 then i + 1 else i - 1

-- `for (let i = leafStart; i > 1n; i = i >> 1n)`, on fuel: `i` rounds are enough.
unfoldable pub proof_ids_from : ℕ → ℕ → List ℕ
proof_ids_from zero i = []
proof_ids_from (suc fuel) i =
    let rest = proof_ids_from fuel (i / 2) in if ltb 1 i then sibling i ∷ rest else []

-- The integer part of the logarithm of a positive number, on fuel: `x` rounds are enough.
unfoldable pub log2_from : ℕ → ℕ → ℕ
log2_from zero x = 0
log2_from (suc fuel) x = let rest = log2_from fuel (x / 2) in if ltb 1 x then rest + 1 else 0

-- `Math.log2` gives a double. At a number that is `d` below 2 ^ (k + 1) it is d / (2 ^ (k + 1) * ln 2)
-- below k + 1, and rounds up to k + 1 where this is at most half the step of the doubles there, which
-- is 2 ^ (log2 k - 53); ln 2 is 693147 / 10 ^ 6.
unfoldable pub rounds_up : ℕ → ℕ → Bool
unfolding log2_from
rounds_up k d = leb (d * 10 ^ 6 * 2 ^ 53) (693147 * 2 ^ (k + 1 + log2_from k k))

-- `Math.floor(Math.log2(Number(x)))` of a positive number: one too high from 2 ^ 49 - 1 on, at the
-- numbers just below a power of two.
unfoldable pub floor_log2 : ℕ → ℕ
unfolding log2_from rounds_up
floor_log2 x = let k = log2_from x x in if rounds_up k (2 ^ (k + 1) - x) then k + 1 else k

-- A tree: its height, its hash function, and the hash of an empty leaf.
pub record Tree : Type 0 where
  pub height : ℕ
  pub hash_func : List ℤ → ℕ
  pub leaf_default : ℕ

-- `setLevelDefaultHash`: the entry that stands `k` levels above the last one.
unfoldable pub default_hash_above : Tree → ℕ → ℕ
default_hash_above t zero = t.leaf_default
default_hash_above t (suc k) = let h = default_hash_above t k in t.hash_func (pos h ∷ pos h ∷ [])

-- `getDefaultHashByLevel`: only the levels from 0 to the last one have an entry.
unfoldable pub default_hash_by_level : Tree → ℕ → Result ℕ
default_hash_by_level t level =
    if ltb t.height level
    then err default_hash_null
    else ok (default_hash_above t (t.height - level))

unfoldable pub leaf_id_in_tree : Tree → ℕ → ℕ
leaf_id_in_tree t leaf_id = leaf_id + 2 ^ t.height

unfoldable pub proof_ids : Tree → ℕ → List ℕ
unfolding leaf_id_in_tree proof_ids_from
proof_ids t leaf_id = let start = leaf_id_in_tree t leaf_id in proof_ids_from start start

-- `(value == null) ? this.getDefaultHashByLevel(level) : value.hash`
unfoldable pub hash_or_default : Tree → ℕ → Option ℕ → Result ℕ
hash_or_default t level none = default_hash_by_level t level
hash_or_default t level (some h) = ok h

-- How the parents on a path are written: by the transaction, or by the repository (token tree).
pub data Writer : Type 0 where
  manager repository : Writer

abbrev pub write_parent : Writer → Isolation → ℕ → ℕ → Nodes → Nodes
write_parent manager iso i h n = manager_upsert i h n
write_parent repository iso i h n = repository_upsert iso i h n

-- A row that was missing is written with the default hash that was taken for it.
abbrev pub fill : Option ℕ → ℕ → ℕ → Nodes → Nodes
fill none i h n = manager_upsert i h n
fill (some _) i h n = n

-- `(id % 2n == 0n) ? [jHash, iHash] : [iHash, jHash]`: the parity is that of the leaf's node `id`,
-- on every level.
unfoldable pub pair_of : ℕ → ℕ → ℕ → List ℤ
pair_of id i_hash j_hash =
    if id % 2 == 0 then pos j_hash ∷ pos i_hash ∷ [] else pos i_hash ∷ pos j_hash ∷ []

module _ (t : Tree) (w : Writer) (iso : Isolation) where
  -- One round of the loop: at node `i`, whose sibling is `p`.
  unfoldable pub climb_round : ℕ → ℕ → ℕ → Action Nodes (Unit {0})
  unfolding floor_log2 hash_or_default pair_of
  climb_round id i p = do
    i_value ← gets (find_node iso i)
    j_value ← gets (find_node iso p)
    j_hash ← of_result (hash_or_default t (floor_log2 p) j_value)
    i_hash ← of_result (hash_or_default t (floor_log2 i) i_value)
    let hash = t.hash_func (pair_of id i_hash j_hash)
    modify (fill i_value i i_hash)
    modify (fill j_value p j_hash)
    modify (λ n. if ltb 0 (i / 2) then write_parent w iso (i / 2) hash n else n)

  -- The loop from node `i` to the root, along the proof ids that are left, one for each round.
  unfoldable pub climb : ℕ → ℕ → List ℕ → Action Nodes (Unit {0})
  unfolding climb_round
  climb id i [] n = (ok tt, n)
  climb id i (p ∷ ps) n = (climb_round id i p >> climb id (i / 2) ps) n

  -- The node rows of `_updateLeaf`: the leaf's hash, then the path up to the root.
  unfoldable pub update_path : ℕ → ℕ → Action Nodes (Unit {0})
  unfolding leaf_id_in_tree proof_ids climb
  update_path leaf_id hash = do
    let id = leaf_id_in_tree t leaf_id
    modify (manager_upsert id hash)
    climb id id (proof_ids t leaf_id)
