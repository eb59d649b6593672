-- ===== src/Hal/Lbt/Wait.antt =====
-- libloragw/src/loragw_lbt.c, `lgw_lbt_tx_status`: the waiting loops end, since both have a timeout.
use meshbeacon_uplink.Prelude.{
  ℕ, suc, ◌^◌, ◌≤◌, ◌<◌, ◌≡◌, refl, Bool, false, List, [], ◌∷◌, ◌==◌, bit_and, arith, if_split,
  Option, none, some,
}
use meshbeacon_uplink.Hal.Lbt.{
  Poll, timeout, agc_error, agc_status, Waited, ended, timed_out, not_read, starved, wait_tx,
  wait_clear, TxStatus, status_error, status_ok, waits, clear_tx, after_wait, lgw_lbt_tx_status,
}
use meshbeacon_uplink.Hal.Lbt.Start.{sends}

-- The turns at which the time is over.
abbrev pub timeouts : List Poll → ℕ
timeouts [] = 0
timeouts (timeout ∷ polls) = suc (timeouts polls)
timeouts (agc_error ∷ polls) = timeouts polls
timeouts (agc_status status ∷ polls) = timeouts polls

-- A loop has ended, and `n` timeouts are left.
abbrev pub Ends : ℕ → Waited → Type 0
Ends n (ended status polls) = n ≤ timeouts polls
Ends n (timed_out polls) = n ≤ timeouts polls
Ends n not_read = Unit
Ends n starved = ⊥

wait_tx-Ends :
    (n rf_chain : ℕ) (polls : List Poll) → n < timeouts polls → Ends n (wait_tx rf_chain polls)
unfolding wait_tx
wait_tx-Ends n rf_chain [] h = elim h [ ]
wait_tx-Ends n rf_chain (timeout ∷ polls) h = omega arith
wait_tx-Ends n rf_chain (agc_error ∷ polls) h = tt
wait_tx-Ends n rf_chain (agc_status status ∷ polls) h =
    if_split (Ends n) (bit_and status (2 ^ rf_chain) == 0) _ _
      (λ e. wait_tx-Ends n rf_chain polls h) (λ e. omega arith)

wait_clear-Ends : (n : ℕ) (polls : List Poll) → n < timeouts polls → Ends n (wait_clear polls)
unfolding wait_clear
wait_clear-Ends n [] h = elim h [ ]
wait_clear-Ends n (timeout ∷ polls) h = omega arith
wait_clear-Ends n (agc_error ∷ polls) h = tt
wait_clear-Ends n (agc_status status ∷ polls) h =
    if_split (Ends n) (status == 0) _ _ (λ e. omega arith) (λ e. wait_clear-Ends n polls h)

-- The calls of a status are no transmissions, and it is one.
abbrev pub IsStatus : TxStatus → Type 0
IsStatus (status_error cs) = sends cs ≡ false
IsStatus (status_ok b cs) = sends cs ≡ false
IsStatus waits = ⊥

clear_tx-IsStatus : (tx_ok : Option Bool) (w : Waited) → Ends 0 w → IsStatus (clear_tx tx_ok w)
unfolding clear_tx
clear_tx-IsStatus tx_ok starved h = h
clear_tx-IsStatus tx_ok not_read h = refl
clear_tx-IsStatus tx_ok (timed_out polls) h = refl
clear_tx-IsStatus none (ended status polls) h = refl
clear_tx-IsStatus (some b) (ended status polls) h = refl

after_wait-IsStatus : (rf_chain : ℕ) (w : Waited) → Ends 1 w → IsStatus (after_wait rf_chain w)
unfolding after_wait
after_wait-IsStatus rf_chain starved h = h
after_wait-IsStatus rf_chain not_read h = refl
after_wait-IsStatus rf_chain (timed_out polls) h =
    clear_tx-IsStatus none _ (wait_clear-Ends 0 polls (omega arith))
after_wait-IsStatus rf_chain (ended status polls) h =
    clear_tx-IsStatus _ _ (wait_clear-Ends 0 polls (omega arith))

pub lgw_lbt_tx_status-IsStatus :
    (rf_chain : ℕ) (polls : List Poll)
    → 2 ≤ timeouts polls
    → IsStatus (lgw_lbt_tx_status rf_chain polls)
unfolding lgw_lbt_tx_status
lgw_lbt_tx_status-IsStatus rf_chain polls h =
    after_wait-IsStatus rf_chain _ (wait_tx-Ends 1 rf_chain polls (omega arith))
