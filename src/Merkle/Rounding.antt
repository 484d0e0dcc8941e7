-- ===== src/Merkle/Rounding.antt =====
-- Trees so high that the logarithm of a node in the last level rounds up.
use zk_obs.Common.{◌-◌, ℕ, suc, ◌+◌, ◌^◌}
use zk_obs.Merkle.{Tree, Writer, Isolation}

module _ (t : Tree) (w : Writer) (iso : Isolation) where
  abbrev last_id : ℕ
  last_id = 2 ^ suc t.height - 1

  -- The sibling of the last node.
  abbrev before_last : ℕ
  before_last = 2 ^ t.height - 2 + 2 ^ t.height
