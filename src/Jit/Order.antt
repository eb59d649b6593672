-- ===== src/Jit/Order.antt =====
-- jitqueue.c: `compare`, the order in which the queue is kept.
use meshbeacon_uplink.Prelude.{
  zero, suc, ◌≤◌, ◌<◌, ◌≡◌, ◌⊎◌, Bool, true, false, Option, none, some, ltb, arith,
}
use meshbeacon_uplink.Prelude.Int.{ℤ, pos, negsuc}
use meshbeacon_uplink.Jit.Types.{JitNode}
use meshbeacon_uplink.Jit.Queue.{compare_nodes}

-- Does a comparison put its first argument behind its second?
abbrev pub is_after : Option ℤ → Bool
is_after none = false
is_after (some (pos zero)) = false
is_after (some (pos (suc n))) = true
is_after (some (negsuc n)) = false

pub compare_nodes-order :
    (p q : JitNode)
    → p.pkt.count_us < 2147483648
    → q.pkt.count_us < 2147483648
    → is_after (compare_nodes p q) ≡ ltb q.pkt.count_us p.pkt.count_us
unfolding compare_nodes
compare_nodes-order p q hp hq = ground arith

-- Across the middle of the counter the order is not that of the timestamps: of a packet below 2 ^ 31 and
-- one from there on, the first has the lower timestamp, and is put behind the second unless the
-- subtraction overflows.
pub compare_nodes-wraps :
    (p q : JitNode)
    → p.pkt.count_us < 2147483648
    → 2147483648 ≤ q.pkt.count_us
    → q.pkt.count_us < 4294967296
    → (p.pkt.count_us < q.pkt.count_us)
      × ((compare_nodes p q ≡ none) ⊎ (is_after (compare_nodes p q) ≡ true))
unfolding compare_nodes
compare_nodes-wraps p q hp lo hi = ground arith
