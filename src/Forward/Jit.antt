-- ===== src/Forward/Jit.antt =====
-- packet_forwarder/src/lora_pkt_fwd.c: `thread_jit`, which takes the packets that are due from the queues and hands them
-- to the concentrator. What the library answers is an argument.
pub mod Due
use meshbeacon_uplink.Prelude.{
  ℕ, ◌+◌, Bool, true, false, Option, none, some, List, [], ◌∷◌, ◌++◌, ◌==◌, if◌then◌else◌, u32,
}
use meshbeacon_uplink.Prelude.Int.{ℤ, pos}
use meshbeacon_uplink.Hal.Packet.{TxPacket}
use meshbeacon_uplink.Jit.Types.{JitPktType, JitError, JitQueue, is_beacon, ok}
use meshbeacon_uplink.Jit.Queue.{Sorter}
use meshbeacon_uplink.Jit.Dequeue.{dequeue}
use meshbeacon_uplink.Jit.Peek.{
  PktIdx, untouched, no_packet, at_index, PeekResult, returns, fault, out_of_fuel, peek,
}

abbrev pub tx_emitting : ℕ
tx_emitting = 4

-- The statistics of the downlink.
pub record Meas : Type 0 where
  pub nb_beacon_sent : ℕ
  pub nb_tx_ok : ℕ
  pub nb_tx_fail : ℕ

-- What `lgw_get_instcnt`, `lgw_status` and `lgw_send` give. `lgw_status` gives no status where it fails.
pub record Answers : Type 0 where
  pub current_concentrator_time : ℕ
  pub tx_status : Option ℕ
  pub is_sent : Bool

-- The calls that change the concentrator.
pub data Call : Type 0 where
  lgw_spectral_scan_abort : Call
  lgw_send : TxPacket → Call

unfoldable pub is_emitting : Option ℕ → Bool
is_emitting none = false
is_emitting (some status) = status == tx_emitting

unfoldable pub count_beacon : JitPktType → Meas → Meas
count_beacon pkt_type meas =
    if is_beacon pkt_type
    then record meas { nb_beacon_sent = u32 (meas.nb_beacon_sent + 1) }
    else meas

unfoldable pub count_send : Bool → Meas → Meas
count_send is_sent meas =
    if is_sent
    then record meas { nb_tx_ok = u32 (meas.nb_tx_ok + 1) }
    else record meas { nb_tx_fail = u32 (meas.nb_tx_fail + 1) }

unfoldable pub send_calls : Bool → TxPacket → List Call
send_calls scan_enable pkt =
    if scan_enable then lgw_spectral_scan_abort ∷ lgw_send pkt ∷ [] else lgw_send pkt ∷ []

-- The queue, the calls and the statistics after the turn of a chain. `faults` where `jit_peek` leaves its array.
pub data TurnResult : Type 0 where
  done : JitQueue → List Call → Meas → TurnResult
  faults : TurnResult
  endless : TurnResult

-- `correct` is the correction of a frequency by the crystal error, which C computes on double.
module _ (s : Sorter) (correct : ℕ → ℕ) (scan_enable : Bool) where
  unfoldable pub correct_beacon : TxPacket → JitPktType → TxPacket
  correct_beacon pkt pkt_type =
      if is_beacon pkt_type then record pkt { freq_hz = correct pkt.freq_hz } else pkt

  -- Where the concentrator is emitting, the packet is dropped.
  unfoldable pub send_packet : Answers → JitQueue → TxPacket → Meas → TurnResult
  send_packet a q pkt meas =
      if is_emitting a.tx_status
      then done q [] meas
      else done q (send_calls scan_enable pkt) (count_send a.is_sent meas)

  unfoldable pub use_dequeued :
      Answers → Meas → JitError × JitQueue × Option (TxPacket × JitPktType) → TurnResult
  use_dequeued a meas (JitError.ok, q, some (pkt, pkt_type)) =
      send_packet a q (correct_beacon pkt pkt_type) (count_beacon pkt_type meas)
  use_dequeued a meas (e, q, packet) = done q [] meas

  -- `jit_peek` stores an index whenever it gives no error.
  unfoldable pub use_peeked : Answers → Meas → PeekResult → TurnResult
  use_peeked a meas (returns JitError.ok q (at_index i)) =
      use_dequeued a meas (dequeue s q (pos i) true)
  use_peeked a meas (returns e q idx) = done q [] meas
  use_peeked a meas (fault q) = faults
  use_peeked a meas out_of_fuel = endless

  -- The turn of one chain.
  unfoldable pub chain_turn : Answers → JitQueue → Meas → TurnResult
  chain_turn a q meas = use_peeked a meas (peek s a.current_concentrator_time q true)

  -- The turns of all chains, in their order.
  unfoldable pub thread_jit :
      List Answers → List JitQueue → Meas → Option (List JitQueue × List Call × Meas)
  thread_jit (a ∷ answers) (q ∷ queues) meas = elim (chain_turn a q meas) [
    | done q' calls meas' ↦ elim (thread_jit answers queues meas') [
      | some (queues', calls', meas'') ↦ some (q' ∷ queues', calls ++ calls', meas'')
      | none ↦ none
    ]
    | faults ↦ none
    | endless ↦ none
  ]
  thread_jit answers queues meas = some ([], [], meas)
