-- ===== src/Hal/Send/Cleared.antt =====
-- libloragw/src/loragw_hal.c, `lgw_send`: the packets that are given to the concentrator.
use meshbeacon_uplink.Prelude.{
  ℕ, ◌<◌, ◌≤◌, ◌≡◌, refl, ap, ◌||◌, ◌&&◌, not, true, false, List, [], ◌∷◌, ◌++◌, ltb, arith,
  if_split, and_split, Bool-cases, inl, inr,
}
use meshbeacon_uplink.Hal.Packet.{TxPacket}
use meshbeacon_uplink.Hal.Config.Types.{Context}
use meshbeacon_uplink.Hal.Config.{HalStatus, error}
use meshbeacon_uplink.Hal.Lbt.{Call, LbtStart, started, failed, fault}
use meshbeacon_uplink.Hal.Lbt.Start.{sends, is_send, Starts, ClearOf, lgw_lbt_start-Starts}
use meshbeacon_uplink.Hal.Send.{
  Answers, is_tx_mode, is_modulation_checked, radio_of, is_tx_checked, SendResult, returns,
  send_lbt, dac_calls, lgw_send,
}

-- The packet may be sent, with listening before where that is on.
pub record IsCleared (fsk_toa_ms : TxPacket → ℕ) (c : Context) (pkt : TxPacket) : Type 0 where
  pub started : c.is_started ≡ true
  pub rf_chain : pkt.rf_chain < 2
  pub tx_enable : (radio_of c pkt.rf_chain).tx_enable ≡ true
  pub enable : (radio_of c pkt.rf_chain).enable ≡ true
  pub tx_mode : pkt.tx_mode ≤ 2
  pub modulation : is_modulation_checked pkt ≡ true
  pub lbt : c.sx1261_cfg.lbt_conf.enable ≡ true → ClearOf fsk_toa_ms c.sx1261_cfg pkt

pub sends-append : (xs ys : List Call) → sends (xs ++ ys) ≡ (sends xs || sends ys)
sends-append [] ys = refl
sends-append (x ∷ xs) ys = elim (Bool-cases (is_send x)) [
  | inl e ↦ rw e refl
  | inr e ↦ rw e (sends-append xs ys)
]

pub sends-append_quiet :
    (xs ys : List Call) → sends xs ≡ false → sends ys ≡ false → sends (xs ++ ys) ≡ false
sends-append_quiet xs ys h k = rw (sends-append xs ys, h, k) refl

pub sends-dac_calls : (c : Context) → sends (dac_calls c) ≡ false
unfolding dac_calls
sends-dac_calls c =
    if_split (λ cs. sends cs ≡ false) c.board_cfg.full_duplex _ _ (λ e. refl) (λ e. refl)

is_tx_mode-le : (mode : ℕ) → is_tx_mode mode ≡ true → mode ≤ 2
unfolding is_tx_mode
is_tx_mode-le mode h = ground arith

is_tx_checked-IsCleared :
    (fsk_toa_ms : TxPacket → ℕ) (c : Context) (pkt : TxPacket)
    → is_tx_checked c pkt ≡ true
    → (c.sx1261_cfg.lbt_conf.enable ≡ true → ClearOf fsk_toa_ms c.sx1261_cfg pkt)
    → IsCleared fsk_toa_ms c pkt
unfolding is_tx_checked
is_tx_checked-IsCleared fsk_toa_ms c pkt h clear =
    let radio = radio_of c pkt.rf_chain in
    let chain = ltb pkt.rf_chain 2 in
    let mode = is_tx_mode pkt.tx_mode in
    let e1 =
      and_split (c.is_started && chain && radio.tx_enable && radio.enable && mode)
        (is_modulation_checked pkt) h in
    let e2 = and_split (c.is_started && chain && radio.tx_enable && radio.enable) mode e1.0 in
    let e3 = and_split (c.is_started && chain && radio.tx_enable) radio.enable e2.0 in
    let e4 = and_split (c.is_started && chain) radio.tx_enable e3.0 in
    let e5 = and_split c.is_started chain e4.0 in
    record {
      started = e5.0;
      rf_chain = ground (arith, e5.1);
      tx_enable = e4.1;
      enable = e3.1;
      tx_mode = is_tx_mode-le pkt.tx_mode e2.1;
      modulation = e1.1;
      lbt = clear;
    }

-- Where a packet is sent behind the start of the sensing, the sensing was started.
send_lbt-Starts :
    (P : Type 0) (a : Answers) (rf_chain : ℕ) (cs ds : List Call) (s : HalStatus) (r : LbtStart)
    → sends cs ≡ false
    → Starts P r
    → send_lbt a rf_chain cs r ≡ returns s ds
    → sends ds ≡ true
    → P
unfolding send_lbt
send_lbt-Starts P a rf_chain cs ds s fault quiet st e sent = absurd (cc e)
send_lbt-Starts P a rf_chain cs ds s (failed more) quiet st e sent =
    let same : cs ++ more ≡ ds = cc e in
    absurd (cc (ap sends same, sent, sends-append_quiet cs more quiet st))
send_lbt-Starts P a rf_chain cs ds s (started more) quiet st e sent = st.0

-- A packet is given to the concentrator by lgw_send only if the concentrator is started, the radio of the packet
-- is there and enabled, for transmission too, the modulation is in order, and, with listening before talk, one
-- of the channels counted is within 10 kHz of the frequency, has the bandwidth, and leaves time for the 1.5 ms
-- of sensing and for the duration that lgw_time_on_air gives for the packet with the preamble as the caller has
-- left it, which is less than what is on the air where the preamble is shorter than the least one and gets
-- lengthened behind the check; for a 16-bit preamble and an FSK duration of at most 4000 seconds.
pub lgw_send-IsCleared :
    (fsk_toa_ms : TxPacket → ℕ) (a : Answers) (c : Context) (pkt : TxPacket) (s : HalStatus)
    (cs : List Call)
    → pkt.preamble ≤ 65535
    → fsk_toa_ms pkt ≤ 4000000
    → lgw_send fsk_toa_ms a c pkt ≡ returns s cs
    → sends cs ≡ true
    → IsCleared fsk_toa_ms c pkt
unfolding lgw_send
lgw_send-IsCleared fsk_toa_ms a c pkt s cs p f =
    if_split Clears (not (is_tx_checked c pkt)) _ _
      (λ bad e sent. absurd (none_sent [] refl e sent))
      (λ checked.
        let allowed = is_tx_checked-IsCleared fsk_toa_ms c pkt (ground arith) in
        if_split Clears (c.board_cfg.full_duplex && not a.dac_ok) _ _
          (λ bad e sent. absurd (none_sent (dac_calls c) (sends-dac_calls c) e sent))
          (λ dac.
            if_split Clears c.sx1261_cfg.lbt_conf.enable _ _
              (λ on e sent. allowed (λ h.
                send_lbt-Starts (ClearOf fsk_toa_ms c.sx1261_cfg pkt) a pkt.rf_chain (dac_calls c)
                  cs s _ (sends-dac_calls c)
                  (lgw_lbt_start-Starts fsk_toa_ms a.rx_ok a.lbt_start_ok c.sx1261_cfg pkt p f) e
                  sent))
              (λ off e sent. allowed (λ on. absurd (cc (on, off))))))
  where
    Clears : SendResult → Type 0
    Clears r = r ≡ returns s cs → sends cs ≡ true → IsCleared fsk_toa_ms c pkt

    none_sent :
        (ds : List Call) → sends ds ≡ false → returns error ds ≡ returns s cs → sends cs ≡ true → ⊥
    none_sent ds quiet e sent =
        let same : ds ≡ cs = cc e in absurd (cc (ap sends same, quiet, sent))
