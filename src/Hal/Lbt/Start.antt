-- ===== src/Hal/Lbt/Start.antt =====
-- libloragw/src/loragw_lbt.c, `lgw_lbt_start`: the packets for which the sensing is started.
use meshbeacon_uplink.Prelude.{
  ℕ, zero, suc, ◌+◌, ◌*◌, ◌<◌, ◌≤◌, ◌≡◌, refl, ◌||◌, Bool, true, false, List, [], ◌∷◌, leb, get_or,
  arith, if_split, subst,
}
use meshbeacon_uplink.Hal.Packet.{TxPacket}
use meshbeacon_uplink.Hal.TimeOnAir.{lgw_time_on_air}
use meshbeacon_uplink.Hal.TimeOnAir.Bounds.{lgw_time_on_air-le}
use meshbeacon_uplink.Hal.Config.Types.{ConfChanLbt, ConfLbt, ConfSx1261, no_channel}
use meshbeacon_uplink.Hal.Lbt.{
  Call, ad5338r_write, sx1261_set_rx_params, sx1261_lbt_start, sx1302_send,
  sx1302_agc_mailbox_write, sx1302_tx_abort, sx1261_lbt_stop, is_equal_freq, LbtMatch, channel,
  no_match, overrun, matches, search_channel, is_lbt_channel, LbtStart, started, failed, fault,
  is_short_enough, start_scan, start_on, lgw_lbt_start,
}

abbrev pub is_send : Call → Bool
is_send ad5338r_write = false
is_send (sx1261_set_rx_params f b) = false
is_send (sx1261_lbt_start t l) = false
is_send sx1302_send = true
is_send (sx1302_agc_mailbox_write m v) = false
is_send (sx1302_tx_abort r) = false
is_send sx1261_lbt_stop = false

-- Is a packet given to the concentrator?
abbrev pub sends : List Call → Bool
sends [] = false
sends (c ∷ cs) = is_send c || sends cs

-- The channel `i` of those counted is that of the packet, and the packet is over in its time.
pub record IsClear (toa_ms : ℕ) (lbt : ConfLbt) (pkt : TxPacket) (i : ℕ) : Type 0 where
  pub counted : i < lbt.nb_channel
  pub freq_below : pkt.freq_hz ≤ (get_or lbt.channels i no_channel).freq_hz + 10000
  pub freq_above : (get_or lbt.channels i no_channel).freq_hz ≤ pkt.freq_hz + 10000
  pub bandwidth : pkt.bandwidth ≡ (get_or lbt.channels i no_channel).bandwidth
  pub on_time : toa_ms * 1000 + 1500 ≤ (get_or lbt.channels i no_channel).transmit_time_ms * 1000

search_channel-found :
    (left j : ℕ) (channels : List ConfChanLbt) (freq_hz bandwidth i : ℕ)
    → search_channel left j channels freq_hz bandwidth ≡ channel i
    → (i < j + left) × (matches (get_or channels i no_channel) freq_hz bandwidth ≡ true)
unfolding search_channel
search_channel-found zero j channels freq_hz bandwidth i = λ e. absurd (cc e)
search_channel-found (suc left) j channels freq_hz bandwidth i =
    if_split AtChannel (leb 16 j) _ _ (λ over e. absurd (cc e))
      (λ there.
        if_split AtChannel (matches (get_or channels j no_channel) freq_hz bandwidth) _ _
          (λ found e.
            let same : j ≡ i = cc e in
            (
              omega (arith, same),
              subst (λ k. matches (get_or channels k no_channel) freq_hz bandwidth ≡ true) same
                  found,
            ))
          (λ other e.
            let rest = search_channel-found left (suc j) channels freq_hz bandwidth i e in
            (omega (arith, rest.0), rest.1)))
  where
    AtChannel : LbtMatch → Type 0
    AtChannel m =
        m ≡ channel i
        → (i < j + suc left) × (matches (get_or channels i no_channel) freq_hz bandwidth ≡ true)

-- What is known where the sensing is started. No packet is sent by it.
abbrev pub Starts : Type 0 → LbtStart → Type 0
Starts P (started cs) = P × (sends cs ≡ false)
Starts P (failed cs) = sends cs ≡ false
Starts P fault = Unit

start_scan-Starts :
    (P : Type 0) (rx_ok start_ok : Bool) (sx : ConfSx1261) (ch : ConfChanLbt) (pkt : TxPacket)
    → P
    → Starts P (start_scan rx_ok start_ok sx ch pkt)
unfolding start_scan
start_scan-Starts P rx_ok start_ok sx ch pkt p =
    if_split (Starts P) rx_ok _ _
      (λ e. if_split (Starts P) start_ok _ _ (λ d. (p, refl)) (λ d. refl)) (λ e. refl)

is_clear :
    (toa_ms : ℕ) (lbt : ConfLbt) (pkt : TxPacket) (i : ℕ)
    → toa_ms ≤ 4000000
    → i < lbt.nb_channel
    → matches (get_or lbt.channels i no_channel) pkt.freq_hz pkt.bandwidth ≡ true
    → is_short_enough toa_ms (get_or lbt.channels i no_channel) ≡ true
    → IsClear toa_ms lbt pkt i
unfolding matches is_short_enough is_equal_freq
is_clear toa_ms lbt pkt i h l m short = record {
  counted = l;
  freq_below = ground arith;
  freq_above = ground arith;
  bandwidth = ground arith;
  on_time = ground arith;
}

abbrev pub ClearOf : (TxPacket → ℕ) → ConfSx1261 → TxPacket → Type 0
ClearOf fsk_toa_ms sx pkt = (i : ℕ) × IsClear (lgw_time_on_air fsk_toa_ms pkt) sx.lbt_conf pkt i

module _ (fsk_toa_ms : TxPacket → ℕ) (rx_ok start_ok : Bool) (sx : ConfSx1261) (pkt : TxPacket)
    (short : lgw_time_on_air fsk_toa_ms pkt ≤ 4000000) where
  start_on-Starts :
      (m : LbtMatch)
      → ((i : ℕ)
          → m ≡ channel i
          → (i < sx.lbt_conf.nb_channel)
            × (matches (get_or sx.lbt_conf.channels i no_channel) pkt.freq_hz pkt.bandwidth ≡ true))
      → Starts
          (ClearOf fsk_toa_ms sx pkt)
          (start_on rx_ok start_ok (lgw_time_on_air fsk_toa_ms pkt) sx pkt m)
  unfolding start_on
  start_on-Starts no_match h = refl
  start_on-Starts overrun h = tt
  start_on-Starts (channel i) h =
      let found = h i refl in
      if_split (Starts (ClearOf fsk_toa_ms sx pkt))
        (is_short_enough (lgw_time_on_air fsk_toa_ms pkt)
          (get_or sx.lbt_conf.channels i no_channel))
        _ _
        (λ e.
          start_scan-Starts (ClearOf fsk_toa_ms sx pkt) rx_ok start_ok sx _ pkt (
            i,
            is_clear (lgw_time_on_air fsk_toa_ms pkt) sx.lbt_conf pkt i short found.0 found.1 e,
          ))
        (λ e. refl)

pub lgw_lbt_start-Starts :
    (fsk_toa_ms : TxPacket → ℕ) (rx_ok start_ok : Bool) (sx : ConfSx1261) (pkt : TxPacket)
    → pkt.preamble ≤ 65535
    → fsk_toa_ms pkt ≤ 4000000
    → Starts (ClearOf fsk_toa_ms sx pkt) (lgw_lbt_start fsk_toa_ms rx_ok start_ok sx pkt)
unfolding lgw_lbt_start is_lbt_channel
lgw_lbt_start-Starts fsk_toa_ms rx_ok start_ok sx pkt p f =
    start_on-Starts fsk_toa_ms rx_ok start_ok sx pkt (lgw_time_on_air-le fsk_toa_ms pkt p f)
      (is_lbt_channel sx.lbt_conf pkt.freq_hz pkt.bandwidth)
      (λ i e.
        let found =
          search_channel-found sx.lbt_conf.nb_channel 0 sx.lbt_conf.channels pkt.freq_hz
            pkt.bandwidth i e in
        (omega (arith, found.0), found.1))
