-- ===== src/Timestamp/Read.antt =====
-- loragw_sx1302_timestamp.c: `timestamp_counter_get`. Each `lgw_reg_rb` call is given by its outcome:
-- the bytes read, or `none` for an error of the bus.
pub mod Track
use meshbeacon_uplink.Prelude.{
  ℕ, ◌+◌, ◌*◌, ◌/◌, ◌^◌, ◌||◌, not, Bool, true, false, List, [], ◌∷◌, Option, none, some, ◌==◌,
  if◌then◌else◌, get_or, bit_or,
}
use meshbeacon_uplink.Timestamp.Counter.{TimestampCounter, counter_update, counter_expand}
use meshbeacon_uplink.Timestamp.History.{PpsHistory, history_save}

infixl 5 ◌>>=◌
abbrev pub ◌>>=◌ {ℓ κ} : {A : Type ℓ} {B : Type κ} → Option A → (A → Option B) → Option B
none >>= f = none
some a >>= f = f a

-- Four bytes from index `k` on, the most significant first.
unfoldable pub be_word : List ℕ → ℕ → ℕ
be_word buff k =
    bit_or
      (bit_or (bit_or (get_or buff k 0 * 2 ^ 24) (get_or buff (k + 1) 0 * 2 ^ 16))
        (get_or buff (k + 2) 0 * 2 ^ 8))
      (get_or buff (k + 3) 0)

-- The counters are read twice, and a third time if a most significant byte has changed.
unfoldable pub stable_read : Option (List ℕ) → Option (List ℕ) → Option (List ℕ) → Option (List ℕ)
stable_read first second third = do
  buff ← first
  buff_wa ← second
  if not (get_or buff 0 0 == get_or buff_wa 0 0) || not (get_or buff 4 0 == get_or buff_wa 4 0)
      then third
      else some buff

-- The state of the module, and the two values returned.
pub record Reading : Type 0 where
  pub counter : TimestampCounter
  pub pps_history : PpsHistory
  pub inst : ℕ
  pub pps : ℕ

unfoldable pub use_reading : TimestampCounter → PpsHistory → List ℕ → Reading
use_reading self h buff =
    let pps_reg = be_word buff 0 in
    let pps_now = pps_reg / 32 in
    let inst_now = be_word buff 4 / 32 in
    let self' = counter_update self pps_now inst_now in
    record {
      counter = self';
      pps_history = history_save h pps_reg;
      inst = counter_expand self' false inst_now;
      pps = counter_expand self' true pps_now;
    }

-- `none` is the value -1, and leaves the state as it was.
unfoldable pub counter_get :
    TimestampCounter
    → PpsHistory
    → Option (List ℕ)
    → Option (List ℕ)
    → Option (List ℕ)
    → Option Reading
counter_get self h first second third = do
  buff ← stable_read first second third
  some (use_reading self h buff)
