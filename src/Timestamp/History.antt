-- ===== src/Timestamp/History.antt =====
-- loragw_sx1302_timestamp.c: `timestamp_pps_history`, the ring of the last 16 PPS counters.
pub mod Recent
use meshbeacon_uplink.Prelude.{
  ℕ, ◌+◌, Bool, not, ◌||◌, List, ltb, ◌==◌, if◌then◌else◌, u8, get_or, set, replicate,
}

abbrev pub max_timestamp_pps_history : ℕ
max_timestamp_pps_history = 16

pub record PpsHistory : Type 0 where
  pub history : List ℕ
  pub idx : ℕ
  pub size : ℕ

-- The static initialiser.
abbrev pub no_history : PpsHistory
no_history = record { history = replicate max_timestamp_pps_history 0; idx = 0; size = 0 }

unfoldable pub next_idx : PpsHistory → ℕ
next_idx h =
    let stepped = if ltb 0 h.size then u8 (h.idx + 1) else h.idx in
    if stepped == max_timestamp_pps_history then 0 else stepped

-- A counter equal to the one saved last is not saved again.
unfoldable pub history_save : PpsHistory → ℕ → PpsHistory
history_save h timestamp_pps_reg =
    if not (timestamp_pps_reg == get_or h.history h.idx 0) || h.size == 0
    then record {
      history = set h.history (next_idx h) timestamp_pps_reg;
      idx = next_idx h;
      size = if ltb h.size max_timestamp_pps_history then h.size + 1 else h.size;
    }
    else h
