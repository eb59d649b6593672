-- ===== src/Jit/Dequeue.antt =====
-- jitqueue.c: `jit_dequeue`, and the removal of a node that `jit_peek` makes in the same way.
pub mod Laws
use meshbeacon_uplink.Prelude.{
  ℕ, ◌+◌, Bool, true, false, Option, none, some, leb, u8, if◌then◌else◌, get_or, set,
}
use meshbeacon_uplink.Prelude.Int.{ℤ, pos, negsuc}
use meshbeacon_uplink.Hal.Packet.{TxPacket}
use meshbeacon_uplink.Jit.Types.{
  jit_queue_max, JitPktType, JitError, JitNode, JitQueue, is_beacon, zero_node,
}
use meshbeacon_uplink.Jit.Queue.{Sorter, is_empty, sort_queue}

unfoldable pub node_at : JitQueue → ℕ → JitNode
node_at q i = get_or q.nodes i zero_node

-- The node's place is taken by the last packet, and the last packet's place is cleared. Counters are
-- `uint8_t`.
unfoldable pub drop_node : JitQueue → ℕ → JitQueue
unfolding node_at
drop_node q i =
    let last = u8 (q.num_pkt + 255) in
    record {
      num_pkt = last;
      num_beacon =
          if is_beacon (node_at q i).pkt_type then u8 (q.num_beacon + 255) else q.num_beacon;
      nodes = set (set q.nodes i (node_at q last)) last zero_node;
    }

module _ (s : Sorter) where
  unfoldable pub remove_node : JitQueue → ℕ → JitQueue
  remove_node q i = sort_queue s (drop_node q i)

  -- The caller passes a null pointer or a place for the packet. The third part is what is put there.
  unfoldable pub dequeue :
      JitQueue → ℤ → Bool → JitError × JitQueue × Option (TxPacket × JitPktType)
  dequeue q index false = (JitError.invalid, q, none)
  dequeue q (negsuc i) true = (JitError.invalid, q, none)
  dequeue q (pos i) true =
      if leb jit_queue_max i
      then (JitError.invalid, q, none)
      else if is_empty q
      then (JitError.empty, q, none)
      else (JitError.ok, remove_node q i, some ((node_at q i).pkt, (node_at q i).pkt_type))
