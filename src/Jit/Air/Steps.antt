-- ===== src/Jit/Air/Steps.antt =====
-- The queue under any sequence of calls, as the gateway's threads make them one after another.
use mathlib.Core.List.{Pairwise, Pairwise-cons}
use mathlib.Core.List.Perm
use meshbeacon_uplink.Prelude.{ℕ, ◌≤◌, ◌<◌, ◌≡◌, Bool, true, some, arith, leb, ◌==◌, false, subst}
use meshbeacon_uplink.Prelude.Int.{pos}
use meshbeacon_uplink.Prelude.Every.{All-perm}
use meshbeacon_uplink.Hal.Packet.{TxPacket}
use meshbeacon_uplink.Jit.Types.{JitPktType, JitError, JitQueue}
use meshbeacon_uplink.Jit.Queue.{Sorter, init, init-IsValid, is_empty}
use meshbeacon_uplink.Jit.Enqueue.{enqueue}
use meshbeacon_uplink.Jit.Dequeue.{remove_node, dequeue}
use meshbeacon_uplink.Jit.Dequeue.Laws.{remove_node-contents, remove_node-IsValid}
use meshbeacon_uplink.Jit.Peek.{PktIdx, returns, peek}
use meshbeacon_uplink.Jit.Peek.Total.{EndsWith, peek_ends}
use meshbeacon_uplink.Jit.Air.{Apart-prop, Apart-symm, IsBounded, IsBounded-prop, IsSafe}
use meshbeacon_uplink.Jit.Air.Enqueue.{enqueue-IsSafe}

init-IsSafe : (q : JitQueue) → IsSafe (init q)
unfolding init
init-IsSafe q = record { valid = init-IsValid q; bounded = tt; apart = Pairwise.nil }

remove_node-IsSafe :
    (s : Sorter) (q : JitQueue) (i : ℕ) → IsSafe q → i < q.num_pkt → IsSafe (remove_node s q i)
remove_node-IsSafe s q i v inside =
    let moved = remove_node-contents s q i v.valid inside in
    record {
      valid = remove_node-IsValid s q i v.valid inside;
      bounded = (All-perm IsBounded IsBounded-prop moved v.bounded).1;
      apart = (Pairwise-cons.0 (Perm.pairwise Apart-prop Apart-symm moved v.apart)).1;
    }

dequeue-eq-remove_node :
    (s : Sorter) (q : JitQueue) (i : ℕ)
    → i < q.num_pkt
    → q.num_pkt ≤ 32
    → (dequeue s q (pos i) true).1 ≡ remove_node s q i
unfolding dequeue is_empty
dequeue-eq-remove_node s q i inside fits =
    let small : leb 32 i ≡ false = ground arith in
    let some_left : (q.num_pkt == 0) ≡ false = ground arith in rw (small, some_left)

module _ (s : Sorter) (lgw_time_on_air : TxPacket → ℕ) where
  -- A call, with what its caller sees to: 32-bit times, a time on air below 4000 seconds, and an index
  -- of a packet of the queue. A `jit_peek` counts if it returns.
  pub data Step : JitQueue → JitQueue → Type 0 where
    inits : (q : JitQueue) → Step q (init q)
    enqueues :
        (q : JitQueue) (time_us : ℕ) (packet : TxPacket) (pkt_type : JitPktType)
        → packet.count_us < 4294967296
        → lgw_time_on_air packet ≤ 4000000
        → Step q (enqueue s lgw_time_on_air q time_us (some packet) pkt_type).1
    dequeues : (q : JitQueue) (i : ℕ) → i < q.num_pkt → Step q (dequeue s q (pos i) true).1
    peeks :
        (q q' : JitQueue) (time_us : ℕ) (given : Bool) (e : JitError) (idx : PktIdx)
        → peek s time_us q given ≡ returns e q' idx
        → Step q q'

  pub data Reach (q : JitQueue) : JitQueue → Type 0 where
    here : Reach q q
    next : {r t : JitQueue} → Reach q r → Step r t → Reach q t

  pub Step-IsSafe : {q r : JitQueue} → Step q r → IsSafe q → IsSafe r
  Step-IsSafe (inits q) v = init-IsSafe q
  Step-IsSafe (enqueues q time_us packet pkt_type h toa) v =
      enqueue-IsSafe s lgw_time_on_air q time_us packet pkt_type v h toa
  Step-IsSafe (dequeues q i inside) v =
      rw (dequeue-eq-remove_node s q i inside v.valid.fits) (remove_node-IsSafe s q i v inside)
  Step-IsSafe (peeks q q' time_us given e idx h) v = subst (EndsWith IsSafe Unit) h (
      peek_ends s time_us IsSafe (λ q v. v.valid) (λ q i v h. remove_node-IsSafe s q i v h) q given
        v)

  -- After any sequence of such calls on an initialised queue, of any order and number, the queue is
  -- valid and no two transmissions in it overlap on the air.
  pub Reach-IsSafe : (q : JitQueue) {r : JitQueue} → Reach (init q) r → IsSafe r
  Reach-IsSafe q here = init-IsSafe q
  Reach-IsSafe q (next r st) = Step-IsSafe st (Reach-IsSafe q r)
