-- ===== src/Rx/Fetch.antt =====
-- libloragw/src/loragw_sx1302.c: `sx1302_fetch`, which keeps the buffer for as long as packets are left.
pub mod Waits
use meshbeacon_uplink.Prelude.{ℕ, Bool, List, ◌==◌, if◌then◌else◌}
use meshbeacon_uplink.Rx.Buffer.{RxBuffer, FetchResult, returns, success, buffer_new, fetch}

-- The number of packets given back is `buffer_pkt_nb` of the buffer returned, on success.
module _ (lgw_mem_rb : ℕ → Bool × List ℕ) where
  unfoldable pub sx1302_fetch : RxBuffer → ℕ × ℕ → ℕ × ℕ → FetchResult
  sx1302_fetch rx_buffer first second =
      if rx_buffer.buffer_pkt_nb == 0
      then fetch lgw_mem_rb (buffer_new rx_buffer) first second
      else returns success rx_buffer
