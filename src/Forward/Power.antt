-- ===== src/Forward/Power.antt =====
-- packet_forwarder/src/lora_pkt_fwd.c: `get_tx_gain_lut_index`, which looks for the power of a downlink in the table of
-- gains of its chain. The table has the entries that it counts.
pub mod Closest
pub mod Agreed
use meshbeacon_uplink.Prelude.{
  ℕ, zero, suc, ◌+◌, ◌-◌, Bool, true, false, ◌||◌, Option, none, some, List, ltb, if◌then◌else◌, u8,
  get_or,
}
use meshbeacon_uplink.Hal.Config.Types.{TxGain, TxGainLut, no_gain}

-- An `int8_t`, from its least value on.
unfoldable pub level : ℕ → ℕ
level x = u8 (x + 128)

-- `rf_power` of an entry.
unfoldable pub level_at : List TxGain → ℕ → ℕ
level_at lut pow_index = level (get_or lut pow_index no_gain).rf_power

unfoldable pub is_none : Option ℕ → Bool
is_none none = true
is_none (some index) = false

-- `current_best_index` and `current_best_match` after a turn of the loop.
unfoldable pub record_best : ℕ → ℕ → ℕ → Option ℕ × ℕ → Option ℕ × ℕ
record_best requested entry pow_index (best_index, best_match) =
    if ltb requested entry
    then (best_index, best_match)
    else if is_none best_index || ltb (requested - entry) best_match
    then (some pow_index, u8 (requested - entry))
    else (best_index, best_match)

-- After the turns for the entries below an index.
unfoldable pub search_power : List TxGain → ℕ → ℕ → Option ℕ × ℕ
search_power lut requested zero = (none, 0xFF)
search_power lut requested (suc pow_index) =
    record_best requested (level_at lut pow_index) pow_index (search_power lut requested pow_index)

-- Whether an index is found, and the index that is stored.
unfoldable pub found_index : Option ℕ × ℕ → Bool × ℕ
found_index (none, best_match) = (false, 0)
found_index (some index, best_match) = (true, u8 index)

unfoldable pub get_tx_gain_lut_index : TxGainLut → ℕ → Bool × ℕ
get_tx_gain_lut_index tx_lut rf_power =
    found_index (search_power tx_lut.lut (level rf_power) tx_lut.size)
