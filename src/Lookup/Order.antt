-- ===== src/Lookup/Order.antt =====
-- The order of the peers by their distance.
use knarr.Prelude.{◌≡◌, true, false, arith}
use knarr.Lookup.Defs.{Node, before}

pub before_total : (m n : Node) → before m n ≡ false → before n m ≡ true
unfolding before
before_total m n h = ground arith

pub before_trans : (l m n : Node) → before l m ≡ true → before m n ≡ true → before l n ≡ true
unfolding before
before_trans l m n h k = ground arith
