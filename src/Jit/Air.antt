-- ===== src/Jit/Air.antt =====
-- The packets of the queue on the air: when two of them are apart.
pub mod Enqueue
pub mod Steps
use mathlib.Core.HLevel.{Π_prop}
use mathlib.Core.List.{Pairwise}
use native.Mathlib.Bridge.{le_prop}
use meshbeacon_uplink.Prelude.{ℕ, ◌+◌, ◌-◌, ◌≤◌, ◌<◌, ◌≡◌, ◌≢◌, sym, ◌∙◌, false, All, arith}
use meshbeacon_uplink.Hal.Packet.{TxPacket}
use meshbeacon_uplink.Jit.Types.{JitPktType, JitNode, JitQueue, tx_start_delay}
use meshbeacon_uplink.Jit.Queue.{IsValid, contents}
use meshbeacon_uplink.Jit.Collision.{collision_test, instant, collision_test_disjoint}
use meshbeacon_uplink.Jit.Enqueue.{overlaps, target_pre_delay, new_node, packet_pre_delay}

-- From the start of the transmission's set-up to the end of its reserved time, on the 32-bit counter,
-- the two packets share no instant.
abbrev pub Apart : JitNode → JitNode → Type 0
Apart n m =
    (i j : ℕ)
    → i ≤ tx_start_delay + n.post_delay
    → j ≤ tx_start_delay + m.post_delay
    → instant n.pkt.count_us tx_start_delay i ≢ instant m.pkt.count_us tx_start_delay j

pub Apart-prop : (n m : JitNode) → IsProp (Apart n m)
Apart-prop n m = hlevel

pub Apart-symm : (n m : JitNode) → Apart n m → Apart m n
Apart-symm n m h i j hi hj e = h j i hj hi (sym e)

-- The delays that the queue gives its nodes, with the time on air below 4000 seconds.
abbrev pub IsBounded : JitNode → Type 0
IsBounded n =
    (n.pkt.count_us < 4294967296)
    × (tx_start_delay ≤ n.pre_delay)
    × (n.pre_delay ≤ 3041500)
    × (n.post_delay ≤ 4000000000)

pub IsBounded-prop : (n : JitNode) → IsProp (IsBounded n)
IsBounded-prop n = hlevel le_prop

target_pre_delay_bounds :
    (pkt_type : JitPktType) (m : JitNode)
    → IsBounded m
    → (tx_start_delay ≤ target_pre_delay pkt_type m) × (target_pre_delay pkt_type m ≤ 3041500)
unfolding target_pre_delay
target_pre_delay_bounds pkt_type m b = ground arith

-- An instant of the shorter window, counted from the start of a longer pre-delay.
instant-widen :
    (count_us pre i : ℕ)
    → count_us < 4294967296
    → tx_start_delay ≤ pre
    → pre ≤ 3041500
    → instant count_us tx_start_delay i ≡ instant count_us pre (pre - tx_start_delay + i)
instant-widen count_us pre i h lo hi = omega arith

-- A new packet that does not overlap a node is apart from it.
pub overlaps-Apart :
    (pkt_type : JitPktType) (n m : JitNode)
    → IsBounded n
    → IsBounded m
    → n.pre_delay ≡ packet_pre_delay pkt_type
    → overlaps pkt_type n.post_delay n.pkt m ≡ false
    → Apart n m
unfolding overlaps
overlaps-Apart pkt_type n m bn bm e h i j hi hj same =
    let pre = target_pre_delay pkt_type m in
    let t = target_pre_delay_bounds pkt_type m bm in
    collision_test_disjoint n.pkt.count_us n.pre_delay n.post_delay m.pkt.count_us pre m.post_delay
      (n.pre_delay - tx_start_delay + i) (pre - tx_start_delay + j) bn.0 bm.0 (omega arith)
      (omega arith) (rw e h) (omega arith) (omega arith)
      (sym (instant-widen n.pkt.count_us n.pre_delay i bn.0 bn.1 bn.2)
        ∙ same
        ∙ instant-widen m.pkt.count_us pre j bm.0 t.0 t.1)

pub record IsSafe (q : JitQueue) : Type 0 where
  pub valid : IsValid q
  pub bounded : All IsBounded (contents q)
  pub apart : Pairwise Apart (contents q)
