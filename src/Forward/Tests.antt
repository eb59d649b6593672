-- ===== src/Forward/Tests.antt =====
-- A downlink that is due, 10 ms ahead, while the concentrator is free, and a table of two powers.
use mathlib.Core.List.{Perm}
use meshbeacon_uplink.Prelude.{
  zero, suc, refl, arith, ℕ, ◌<◌, ◌≤◌, ◌≡◌, ◌⊎◌, true, false, some, [], ◌∷◌, if◌then◌else◌,
}
use meshbeacon_uplink.Jit.Types.{JitQueue, tx_jit_delay}
use meshbeacon_uplink.Jit.Queue.{contents}
use meshbeacon_uplink.Jit.Dequeue.{node_at}
use meshbeacon_uplink.Jit.Peek.{ahead}
use meshbeacon_uplink.Jit.Peek.Due.{IsEarliest}
use meshbeacon_uplink.Jit.Air.{IsSafe}
use meshbeacon_uplink.Jit.Sample.{sorter, one_packet, one_packet-IsFresh, one_packet-IsSafe}
use meshbeacon_uplink.Hal.Config.Types.{TxGain, TxGainLut, no_gain}
use meshbeacon_uplink.Sx1302.Gain.{gain_of}
use meshbeacon_uplink.Forward.Power.{
  level, found_index, search_power, record_best, is_none, get_tx_gain_lut_index, level_at,
}
use meshbeacon_uplink.Forward.Power.Closest.{IsClosest, get_tx_gain_lut_index-IsClosest}
use meshbeacon_uplink.Forward.Power.Agreed.{IsAscending, found_power_agrees}
use meshbeacon_uplink.Forward.Jit.{
  Meas, Answers, is_emitting, count_beacon, count_send, send_calls, done, correct_beacon,
  chain_turn,
}
use meshbeacon_uplink.Forward.Jit.Due.{turn_due}

abbrev no_meas : Meas
no_meas = record { nb_beacon_sent = 0; nb_tx_ok = 0; nb_tx_fail = 0 }

abbrev free : Answers
free = record { current_concentrator_time = 990000; tx_status = some 2; is_sent = true }

abbrev same_freq : ℕ → ℕ
same_freq f = f

turn_due_example :
    ((chain_turn sorter same_freq false free one_packet no_meas ≡ done one_packet [] no_meas)
      × ((k : ℕ) → k < 1 → tx_jit_delay ≤ ahead 990000 one_packet k))
    ⊎ ((i : ℕ) × (q' : JitQueue) × IsEarliest 990000 one_packet 1 i
        × (ahead 990000 one_packet i < tx_jit_delay)
        × Perm (contents one_packet) (node_at one_packet i ∷ contents q')
        × IsSafe q'
        × (let n = node_at one_packet i in
            chain_turn sorter same_freq false free one_packet no_meas ≡ (
              if is_emitting (some 2)
              then done q' [] (count_beacon n.pkt_type no_meas)
              else done q'
                  (send_calls false (correct_beacon sorter same_freq false n.pkt n.pkt_type))
                  (count_send true (count_beacon n.pkt_type no_meas)))))
turn_due_example =
    turn_due sorter same_freq false free one_packet no_meas one_packet-IsSafe one_packet-IsFresh

-- Of the power given.
abbrev gain : ℕ → TxGain
gain power = record no_gain { rf_power = power }

-- 253 stands for -3 dBm.
abbrev two_powers : TxGainLut
two_powers = record { lut = gain 253 ∷ gain 12 ∷ []; size = 2 }

get_tx_gain_lut_index-IsClosest_example :
    IsClosest two_powers 14 (get_tx_gain_lut_index two_powers 14)
get_tx_gain_lut_index-IsClosest_example =
    get_tx_gain_lut_index-IsClosest two_powers 14 (omega arith)

two_powers-IsAscending : IsAscending two_powers
unfolding IsAscending level_at level
two_powers-IsAscending zero zero h inside = omega arith
two_powers-IsAscending zero (suc zero) h inside = omega arith
two_powers-IsAscending (suc zero) (suc zero) h inside = omega arith
two_powers-IsAscending (suc j) zero h inside = absurd (omega (arith, h))
two_powers-IsAscending (suc (suc j)) (suc zero) h inside = absurd (omega (arith, h))
two_powers-IsAscending j (suc (suc k)) h inside = absurd (omega (arith, inside))

found_12 : get_tx_gain_lut_index two_powers 14 ≡ (true, 1)
unfolding get_tx_gain_lut_index found_index search_power record_best level level_at is_none
found_12 = refl

found_power_agrees_example : level (gain_of two_powers 12).rf_power ≡ level 12
found_power_agrees_example =
    found_power_agrees two_powers 14 1 (omega arith) two_powers-IsAscending found_12
