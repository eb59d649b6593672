-- ===== src/Jit/Peek/Purge.antt =====
-- `jit_peek` after a purge of an outdated packet, in a queue of at most two.
use meshbeacon_uplink.Prelude.{ℕ, suc, ◌≤◌, ◌<◌, ◌≡◌, true, false, none, some, leb, ◌==◌, arith}
use meshbeacon_uplink.Jit.Types.{JitQueue, tx_max_advance_delay}
use meshbeacon_uplink.Jit.Queue.{Sorter, IsValid, is_empty}
use meshbeacon_uplink.Jit.Dequeue.{remove_node}
use meshbeacon_uplink.Jit.Dequeue.Laws.{remove_node-num_pkt}
use meshbeacon_uplink.Jit.Peek.{fault, ahead, peek_loop, peek_result, peek_from, peek}

peek_loop_purge :
    (s : Sorter) (time_us fuel : ℕ) (q : JitQueue)
    → IsValid q
    → 0 < q.num_pkt
    → q.num_pkt ≤ 2
    → tx_max_advance_delay ≤ ahead time_us q 0
    → peek_loop s time_us (suc (suc fuel)) 0 none q ≡ some (none, remove_node s q 0)
unfolding peek_loop
peek_loop_purge s time_us fuel q v some_left few outdated =
    let more : leb q.num_pkt 0 ≡ false = ground arith in
    let late : leb tx_max_advance_delay (ahead time_us q 0) ≡ true = ground arith in
    let done : leb (remove_node s q 0).num_pkt 1 ≡ true =
      ground (arith, remove_node-num_pkt s q 0 v some_left) in
    rw (more, late, done)

-- Whenever the first of at most two packets is outdated, it is dropped, and then the node of index -1 is
-- read, also if the packet that is left is due.
pub peek_purge_fault :
    (s : Sorter) (time_us : ℕ) (q : JitQueue)
    → IsValid q
    → 0 < q.num_pkt
    → q.num_pkt ≤ 2
    → tx_max_advance_delay ≤ ahead time_us q 0
    → peek s time_us q true ≡ fault (remove_node s q 0)
unfolding peek peek_from peek_result is_empty
peek_purge_fault s time_us q v some_left few outdated =
    let nonempty : (q.num_pkt == 0) ≡ false = ground arith in
    rw (nonempty, peek, peek_loop_purge s time_us 1120 q v some_left few outdated, peek_from)
