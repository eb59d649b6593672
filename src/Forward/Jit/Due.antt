-- ===== src/Forward/Jit/Due.antt =====
-- packet_forwarder/src/lora_pkt_fwd.c: what a turn of `thread_jit` does with the queue of a chain.
use mathlib.Core.List.{Perm}
use meshbeacon_uplink.Prelude.{
  ℕ, ◌<◌, ◌≤◌, ◌≡◌, ◌⊎◌, inl, inr, refl, ap, ap₂, ◌∙◌, Bool, true, Option, [], ◌∷◌, ◌==◌,
  if◌then◌else◌, arith, Bool-cases,
}
use meshbeacon_uplink.Prelude.Int.{pos}
use meshbeacon_uplink.Hal.Packet.{TxPacket}
use meshbeacon_uplink.Jit.Types.{JitPktType, JitError, JitQueue, tx_jit_delay}
use meshbeacon_uplink.Jit.Queue.{Sorter, contents, is_empty, IsValid}
use meshbeacon_uplink.Jit.Dequeue.{dequeue, node_at}
use meshbeacon_uplink.Jit.Dequeue.Laws.{dequeue_effect}
use meshbeacon_uplink.Jit.Peek.{ahead, returns, at_index, no_packet, peek}
use meshbeacon_uplink.Jit.Peek.Due.{IsFresh, IsEarliest, peek_due}
use meshbeacon_uplink.Jit.Air.{IsSafe}
use meshbeacon_uplink.Jit.Air.Steps.{dequeues, Step-IsSafe}
use meshbeacon_uplink.Forward.Jit.{
  Meas, Answers, is_emitting, count_beacon, count_send, send_calls, done, correct_beacon,
  send_packet, use_dequeued, use_peeked, chain_turn,
}

pairs {ℓ κ} :
    {A : Type ℓ} {B : Type κ} {a a' : A} {b b' : B}
    → a ≡ a'
    → b ≡ b'
    → ◌≡◌ {A = A × B} (a, b) (a', b')
pairs p q = ap₂ (λ a b. (a, b)) p q

module _ (s : Sorter) (correct : ℕ → ℕ) (scan_enable : Bool) where
  empty_turn :
      (a : Answers) (q : JitQueue) (meas : Meas)
      → (q.num_pkt == 0) ≡ true
      → chain_turn s correct scan_enable a q meas ≡ done q [] meas
  unfolding chain_turn peek is_empty use_peeked
  empty_turn a q meas e = rw e refl

  quiet_turn :
      (a : Answers) (q : JitQueue) (meas : Meas)
      → peek s a.current_concentrator_time q true ≡ returns JitError.ok q no_packet
      → chain_turn s correct scan_enable a q meas ≡ done q [] meas
  unfolding chain_turn use_peeked
  quiet_turn a q meas e = ap (use_peeked s correct scan_enable a meas) e

  -- The turn with a packet that is due.
  due_turn :
      (a : Answers) (q : JitQueue) (meas : Meas) (i : ℕ)
      → IsValid q
      → i < q.num_pkt
      → peek s a.current_concentrator_time q true ≡ returns JitError.ok q (at_index i)
      → let n = node_at q i in
        chain_turn s correct scan_enable a q meas
        ≡ send_packet s correct scan_enable a
            (dequeue s q (pos i) true).1
            (correct_beacon s correct scan_enable n.pkt n.pkt_type)
            (count_beacon n.pkt_type meas)
  unfolding chain_turn use_peeked use_dequeued
  due_turn a q meas i v inside e =
      let (good, packet, moved, valid) = dequeue_effect s q i v inside in
      ap (use_peeked s correct scan_enable a meas) e
      ∙ ap
          (λ (r : JitError × Option (TxPacket × JitPktType)).
            use_dequeued s correct scan_enable a meas (r.0, (dequeue s q (pos i) true).1, r.1))
          (pairs good packet)

  -- On a queue whose transmissions do not overlap and none of whose packets is outdated, a turn of thread_jit returns.
  -- Either every packet is 40 ms ahead or more, and nothing is done; or the packet with the least time ahead, less than
  -- 40 ms, is taken out of the queue, which keeps the others and stays free of overlaps. If the concentrator is known to
  -- be emitting nothing is sent and no transmission counted; otherwise lgw_send gets this packet, with the frequency of
  -- a beacon corrected, and the transmission counts as done or failed by what it returns. A beacon counts as sent in
  -- every case.
  pub turn_due :
      (a : Answers) (q : JitQueue) (meas : Meas)
      → IsSafe q
      → IsFresh a.current_concentrator_time q
      → ((chain_turn s correct scan_enable a q meas ≡ done q [] meas)
          × ((k : ℕ) → k < q.num_pkt → tx_jit_delay ≤ ahead a.current_concentrator_time q k))
        ⊎ ((i : ℕ) × (q' : JitQueue) × IsEarliest a.current_concentrator_time q q.num_pkt i
            × (ahead a.current_concentrator_time q i < tx_jit_delay)
            × Perm (contents q) (node_at q i ∷ contents q')
            × IsSafe q'
            × (let n = node_at q i in
                chain_turn s correct scan_enable a q meas ≡ (
                  if is_emitting a.tx_status
                  then done q' [] (count_beacon n.pkt_type meas)
                  else done q'
                      (send_calls scan_enable
                        (correct_beacon s correct scan_enable n.pkt n.pkt_type))
                      (count_send a.is_sent (count_beacon n.pkt_type meas)))))
  unfolding send_packet
  turn_due a q meas safe fresh = elim (Bool-cases (q.num_pkt == 0)) [
    | inl none_left ↦
        inl (empty_turn a q meas none_left, λ k h. absurd (ground (arith, none_left, h)))
    | inr some_left ↦
        elim (peek_due s a.current_concentrator_time q safe.valid (ground (arith, some_left))
          fresh) [
            | inr (e, later) ↦ inl (quiet_turn a q meas e, later)
            | inl (i, e, earliest, soon) ↦
                let (good, packet, moved, valid) = dequeue_effect s q i safe.valid earliest.0 in
                inr (
                  i,
                  (dequeue s q (pos i) true).1,
                  earliest,
                  soon,
                  moved,
                  Step-IsSafe s (λ packet. 0) (dequeues q i earliest.0) safe,
                  due_turn a q meas i safe.valid earliest.0 e,
                )
          ]
  ]
