-- ===== src/Jit/Enqueue/Keeps.antt =====
-- `jit_enqueue` on the queue as a container.
use mathlib.Core.List.{Perm, perm_append_singleton}
use mathlib.Core.List.Perm
use meshbeacon_uplink.Prelude.{
  ℕ, ◌+◌, ◌<◌, ◌≡◌, ◌≢◌, refl, ◌∙◌, ◌⊎◌, inl, inr, List, [], ◌∷◌, ◌++◌, Option, none, some,
  Option-cases, Bool-cases, arith, length-set, set, suc, if◌then◌else◌, weight-perm, take-suc-set,
  u8, ◌==◌,
}
use meshbeacon_uplink.Hal.Packet.{TxPacket}
use meshbeacon_uplink.Jit.Types.{JitPktType, JitError, JitNode, JitQueue, is_beacon}
use meshbeacon_uplink.Jit.Queue.{
  Sorter, is_full, contents, IsValid, num_beacon-le, sort_queue-contents, sort_queue-IsValid,
}
use meshbeacon_uplink.Jit.Enqueue.{
  append_node, enqueue, enqueue_packet, verdict, schedule, new_node, packet_post_delay,
  find_collision,
}

find_collision-ne-ok :
    (pkt_type : JitPktType) (post : ℕ) (packet : TxPacket) (ns : List JitNode) (e : JitError)
    → find_collision pkt_type post packet ns ≡ some e
    → e ≢ JitError.ok
unfolding find_collision
find_collision-ne-ok pkt_type post packet [] e h = cc
find_collision-ne-ok pkt_type post packet (n ∷ ns) e h =
    ground (arith, find_collision-ne-ok pkt_type post packet ns e)

verdict-ne-ok :
    (time_us post : ℕ) (pkt_type : JitPktType) (packet : TxPacket) (ns : List JitNode)
    (e : JitError)
    → verdict time_us post pkt_type packet ns ≡ some e
    → e ≢ JitError.ok
unfolding verdict
verdict-ne-ok time_us post pkt_type packet ns e h =
    ground (arith, find_collision-ne-ok pkt_type post packet ns e)

module _ (s : Sorter) where
  module _ (q : JitQueue) (n : JitNode) (v : IsValid q) (room : q.num_pkt < 32) where
    -- The queue between the write and the sort.
    abbrev written : JitQueue
    written = record {
      num_pkt = u8 (q.num_pkt + 1);
      num_beacon = if is_beacon n.pkt_type then u8 (q.num_beacon + 1) else q.num_beacon;
      nodes = set q.nodes q.num_pkt n;
    }

    written-contents : contents written ≡ contents q ++ n ∷ []
    written-contents =
        let wraps : u8 (q.num_pkt + 1) ≡ suc q.num_pkt = omega arith in
        rw wraps (take-suc-set q.num_pkt q.nodes n (rw v.sized room))

    written-perm : Perm (contents written) (n ∷ contents q)
    written-perm = rw written-contents (perm_append_singleton n (contents q))

    written-IsValid : IsValid written
    written-IsValid = record {
      sized = length-set q.nodes q.num_pkt n ∙ v.sized;
      fits = omega (arith);
      counted = ground (
        arith,
        weight-perm (λ (m : JitNode). if is_beacon m.pkt_type then 1 else 0) written-perm,
        v.counted,
        num_beacon-le v,
      );
    }

    pub append_node-contents : Perm (contents (append_node s q n)) (n ∷ contents q)
    unfolding append_node
    append_node-contents =
        Perm.trans (sort_queue-contents s written (rw written-IsValid.sized written-IsValid.fits))
          written-perm

    pub append_node-IsValid : IsValid (append_node s q n)
    unfolding append_node
    append_node-IsValid = sort_queue-IsValid s written-IsValid

  module _ (lgw_time_on_air : TxPacket → ℕ) where
    -- The node that `jit_enqueue` writes for a packet.
    abbrev pub enqueued_node : JitQueue → ℕ → TxPacket → JitPktType → JitNode
    enqueued_node q time_us packet pkt_type =
        let post = packet_post_delay (lgw_time_on_air packet) pkt_type in
        new_node post pkt_type (schedule time_us post pkt_type packet (contents q))

    -- The call by its three outcomes: full, refused by the verdict, queued.
    pub enqueue_cases {ℓ} :
        (P : JitError × JitQueue × Option TxPacket → Type ℓ) (q : JitQueue) (time_us : ℕ)
        (packet : TxPacket) (pkt_type : JitPktType)
        → let n = enqueued_node q time_us packet pkt_type in
          (q.num_pkt ≡ 32 → P (JitError.full, q, some packet))
          → ((e : JitError)
              → verdict time_us n.post_delay pkt_type n.pkt (contents q) ≡ some e
              → P (e, q, some n.pkt))
          → (q.num_pkt ≢ 32
              → verdict time_us n.post_delay pkt_type n.pkt (contents q) ≡ none
              → P (JitError.ok, append_node s q n, some n.pkt))
          → P (enqueue s lgw_time_on_air q time_us (some packet) pkt_type)
    unfolding enqueue enqueue_packet is_full
    enqueue_cases P q time_us packet pkt_type full refused queued =
        elim (Bool-cases (q.num_pkt == 32)) [
          | inl e ↦ rw e (full (ground arith))
          | inr e ↦
              let n = enqueued_node q time_us packet pkt_type in
              elim (Option-cases (verdict time_us n.post_delay pkt_type n.pkt (contents q))) [
                | inl o ↦ rw (e, o, enqueue_packet) (queued (ground arith) o)
                | inr (r, o) ↦ rw (e, o, enqueue_packet) (refused r o)
              ]
        ]

    -- What a call with a packet does, by its result. An error leaves the queue as it was. Otherwise the
    -- packet, with the time that it was given, is in the queue beside those that were there.
    pub enqueue_effect :
        (q : JitQueue) (time_us : ℕ) (packet : TxPacket) (pkt_type : JitPktType)
        → IsValid q
        → let r = enqueue s lgw_time_on_air q time_us (some packet) pkt_type in
          let n = enqueued_node q time_us packet pkt_type in
          ((r.0 ≢ JitError.ok) × (r.1 ≡ q))
          ⊎ ((r.0 ≡ JitError.ok) × (r.2 ≡ some n.pkt) × Perm (contents r.1) (n ∷ contents q))
    enqueue_effect q time_us packet pkt_type v =
        enqueue_cases
          (λ r.
            ((r.0 ≢ JitError.ok) × (r.1 ≡ q))
            ⊎ ((r.0 ≡ JitError.ok)
                × (r.2 ≡ some (enqueued_node q time_us packet pkt_type).pkt)
                × Perm (contents r.1) (enqueued_node q time_us packet pkt_type ∷ contents q)))
          q time_us packet pkt_type (λ _. inl ((λ e. cc), refl))
          (λ e o. inl (verdict-ne-ok time_us _ pkt_type _ (contents q) e o, refl))
          (λ h _. inr (refl, refl, append_node-contents q _ v (ground (arith, v.fits))))

    -- Every call keeps the queue valid, whatever it returns.
    pub enqueue-IsValid :
        (q : JitQueue) (time_us : ℕ) (packet : Option TxPacket) (pkt_type : JitPktType)
        → IsValid q
        → IsValid (enqueue s lgw_time_on_air q time_us packet pkt_type).1
    unfolding enqueue
    enqueue-IsValid q time_us none pkt_type v = v
    enqueue-IsValid q time_us (some packet) pkt_type v =
        enqueue_cases (λ r. IsValid r.1) q time_us packet pkt_type (λ _. v) (λ _ _. v)
          (λ h _. append_node-IsValid q _ v (ground (arith, v.fits)))
