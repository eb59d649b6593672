-- ===== src/Hal/Send/Total.antt =====
-- libloragw/src/loragw_hal.c, `lgw_send`: it returns, and leaves no sensing on behind a transmission.
use mathlib.Core.List.{append_assoc}
use meshbeacon_uplink.Prelude.{
  ℕ, zero, suc, ◌+◌, ◌≤◌, ◌≡◌, refl, subst, sym, ◌&&◌, not, Bool, true, false, List, [], ◌∷◌, ◌++◌,
  leb, arith, if_split, get_or,
}
use meshbeacon_uplink.Hal.Packet.{TxPacket}
use meshbeacon_uplink.Hal.TimeOnAir.{lgw_time_on_air}
use meshbeacon_uplink.Hal.Config.Types.{Context, ConfChanLbt, ConfSx1261, no_channel, ConfLbt}
use meshbeacon_uplink.Hal.Config.{HalStatus}
use meshbeacon_uplink.Hal.Lbt.{
  Call, sx1302_send, sx1302_tx_abort, sx1261_lbt_stop, LbtMatch, channel, no_match, overrun,
  search_channel, is_lbt_channel, matches, LbtStart, started, failed, fault, TxStatus, status_error,
  status_ok, waits, start_scan, start_on, is_short_enough, lgw_lbt_start,
}
use meshbeacon_uplink.Hal.Lbt.Start.{sends}
use meshbeacon_uplink.Hal.Lbt.Wait.{timeouts, IsStatus, lgw_lbt_tx_status-IsStatus}
use meshbeacon_uplink.Hal.Send.{
  Answers, is_tx_checked, SendResult, returns, send_fault, send_waits, finish_lbt, send_lbt,
  dac_calls, lgw_send,
}
use meshbeacon_uplink.Hal.Send.Cleared.{sends-append_quiet, sends-dac_calls}

InRange : LbtMatch → Type 0
InRange overrun = ⊥
InRange no_match = Unit
InRange (channel i) = Unit

search_channel-InRange :
    (left j : ℕ) (channels : List ConfChanLbt) (freq_hz bandwidth : ℕ)
    → j + left ≤ 16
    → InRange (search_channel left j channels freq_hz bandwidth)
unfolding search_channel InRange
search_channel-InRange zero j channels freq_hz bandwidth h = tt
search_channel-InRange (suc left) j channels freq_hz bandwidth h =
    if_split InRange (leb 16 j) _ _ (λ over. absurd (ground arith))
      (λ there.
        if_split InRange (matches (get_or channels j no_channel) freq_hz bandwidth) _ _ (λ e. tt)
          (λ e. search_channel-InRange left (suc j) channels freq_hz bandwidth (omega arith)))

-- The start of the sensing is over, and no packet was sent by it.
abbrev IsOver : LbtStart → Type 0
IsOver (started cs) = sends cs ≡ false
IsOver (failed cs) = sends cs ≡ false
IsOver fault = ⊥

start_on-IsOver :
    (rx_ok start_ok : Bool) (toa_ms : ℕ) (sx : ConfSx1261) (pkt : TxPacket) (m : LbtMatch)
    → InRange m
    → IsOver (start_on rx_ok start_ok toa_ms sx pkt m)
unfolding start_on start_scan InRange
start_on-IsOver rx_ok start_ok toa_ms sx pkt overrun h = h
start_on-IsOver rx_ok start_ok toa_ms sx pkt no_match h = refl
start_on-IsOver rx_ok start_ok toa_ms sx pkt (channel i) h =
    if_split IsOver (is_short_enough toa_ms (get_or sx.lbt_conf.channels i no_channel)) _ _
      (λ short.
        if_split IsOver rx_ok _ _ (λ e. if_split IsOver start_ok _ _ (λ d. refl) (λ d. refl))
          (λ e. refl))
      (λ long. refl)

-- Where a packet is sent, the last call stops the sensing.
abbrev StopsLbt : List Call → Type 0
StopsLbt cs = sends cs ≡ true → (front : List Call) × (cs ≡ front ++ (sx1261_lbt_stop ∷ []))

abbrev IsReturn : (List Call → Type 0) → SendResult → Type 0
IsReturn P (returns s cs) = P cs
IsReturn P send_fault = ⊥
IsReturn P send_waits = ⊥

finish_lbt-IsReturn :
    (a : Answers) (rf_chain : ℕ) (cs : List Call) (t : TxStatus)
    → IsStatus t
    → IsReturn StopsLbt (finish_lbt a rf_chain cs t)
unfolding finish_lbt
finish_lbt-IsReturn a rf_chain cs waits h = h
finish_lbt-IsReturn a rf_chain cs (status_error more) h = λ sent. (
  cs ++ (sx1302_send ∷ more) ++ (sx1302_tx_abort rf_chain ∷ []),
  sym (
      append_assoc (cs ++ (sx1302_send ∷ more)) (sx1302_tx_abort rf_chain ∷ [])
        (sx1261_lbt_stop ∷ [])),
)
finish_lbt-IsReturn a rf_chain cs (status_ok b more) h = λ sent. (cs ++ (sx1302_send ∷ more), refl)

send_lbt-IsReturn :
    (a : Answers) (rf_chain : ℕ) (cs : List Call) (r : LbtStart)
    → 2 ≤ timeouts a.polls
    → sends cs ≡ false
    → IsOver r
    → IsReturn StopsLbt (send_lbt a rf_chain cs r)
unfolding send_lbt
send_lbt-IsReturn a rf_chain cs fault polls quiet h = h
send_lbt-IsReturn a rf_chain cs (failed more) polls quiet h =
    λ sent. absurd (cc (sent, sends-append_quiet cs more quiet h))
send_lbt-IsReturn a rf_chain cs (started more) polls quiet h =
    if_split (IsReturn StopsLbt) a.send_ok _ _
      (λ ok.
        finish_lbt-IsReturn a rf_chain (cs ++ more) _
          (lgw_lbt_tx_status-IsStatus rf_chain a.polls polls))
      (λ bad sent. (
        cs ++ more ++ (sx1302_send ∷ []),
        sym (append_assoc (cs ++ more) (sx1302_send ∷ []) (sx1261_lbt_stop ∷ [])),
      ))

abbrev Stops : Context → List Call → Type 0
Stops c cs = c.sx1261_cfg.lbt_conf.enable ≡ true → StopsLbt cs

lgw_send-IsReturn :
    (fsk_toa_ms : TxPacket → ℕ) (a : Answers) (c : Context) (pkt : TxPacket)
    → c.sx1261_cfg.lbt_conf.nb_channel ≤ 16
    → 2 ≤ timeouts a.polls
    → IsReturn (Stops c) (lgw_send fsk_toa_ms a c pkt)
unfolding lgw_send lgw_lbt_start is_lbt_channel
lgw_send-IsReturn fsk_toa_ms a c pkt n polls =
    if_split (IsReturn (Stops c)) (not (is_tx_checked c pkt)) _ _ (λ bad on sent. absurd (cc sent))
      (λ checked.
        if_split (IsReturn (Stops c)) (c.board_cfg.full_duplex && not a.dac_ok) _ _
          (λ bad on sent. absurd (cc (sent, sends-dac_calls c)))
          (λ dac.
            if_split (IsReturn (Stops c)) lbt.enable _ _
              (λ on. with_lbt _ (
                send_lbt-IsReturn a pkt.rf_chain (dac_calls c) _ polls (sends-dac_calls c) (
                  start_on-IsOver a.rx_ok a.lbt_start_ok (lgw_time_on_air fsk_toa_ms pkt)
                    c.sx1261_cfg pkt _
                    (search_channel-InRange lbt.nb_channel 0 lbt.channels pkt.freq_hz pkt.bandwidth
                      (omega arith)))))
              (λ off on. absurd (cc (on, off)))))
  where
    lbt : ConfLbt
    lbt = c.sx1261_cfg.lbt_conf

    with_lbt : (r : SendResult) → IsReturn StopsLbt r → IsReturn (Stops c) r
    with_lbt (returns s cs) h = λ on. h
    with_lbt send_fault h = h
    with_lbt send_waits h = h

module _ (fsk_toa_ms : TxPacket → ℕ) (a : Answers) (c : Context) (pkt : TxPacket)
    (n : c.sx1261_cfg.lbt_conf.nb_channel ≤ 16) (polls : 2 ≤ timeouts a.polls) where
  -- lgw_send returns, without a read behind the array of channels, if at most 16 channels are
  -- counted and the waits come to their timeouts.
  pub lgw_send_total :
      (s : HalStatus) × (cs : List Call) × (lgw_send fsk_toa_ms a c pkt ≡ returns s cs)
  lgw_send_total =
      returned (lgw_send fsk_toa_ms a c pkt) (lgw_send-IsReturn fsk_toa_ms a c pkt n polls)
    where
      returned :
          (r : SendResult)
          → IsReturn (Stops c) r
          → (s : HalStatus) × (cs : List Call) × (r ≡ returns s cs)
      returned (returns s cs) h = (s, cs, refl)
      returned send_fault h = absurd h
      returned send_waits h = absurd h

  -- With listening before talk, at most 16 channels counted and waits that come to their timeouts,
  -- a call of lgw_send that gave a packet to the concentrator stops the sensing as its last call,
  -- whatever the drivers answered.
  pub lgw_send_stops_lbt :
      (s : HalStatus) (cs : List Call)
      → c.sx1261_cfg.lbt_conf.enable ≡ true
      → lgw_send fsk_toa_ms a c pkt ≡ returns s cs
      → sends cs ≡ true
      → (front : List Call) × (cs ≡ front ++ (sx1261_lbt_stop ∷ []))
  lgw_send_stops_lbt s cs on e sent =
      subst (IsReturn (Stops c)) e (lgw_send-IsReturn fsk_toa_ms a c pkt n polls) on sent
