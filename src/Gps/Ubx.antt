-- ===== src/Gps/Ubx.antt =====
-- libloragw/src/loragw_gps.c: `lgw_parse_ubx`, with the variables of the module that it sets.
pub mod Progress
pub mod Sums
use meshbeacon_uplink.Prelude.{
  ℕ, ◌+◌, ◌-◌, ◌*◌, ◌^◌, ◌&&◌, not, Bool, true, false, List, [], ◌∷◌, Option, none, some, leb, ltb,
  ◌==◌, if◌then◌else◌, length, take, drop, get_or, bit_and, bit_or, u8,
}
use meshbeacon_uplink.Prelude.Int.{ℤ, to_int16, to_int32}

pub data GpsMsg : Type 0 where
  unknown ignored invalid incomplete : GpsMsg
  nmea_rmc nmea_gga nmea_gns nmea_zda nmea_gbs nmea_gst nmea_gsa nmea_gsv : GpsMsg
  nmea_gll nmea_txt nmea_vtg ubx_nav_timegps ubx_nav_timeutc : GpsMsg

pub record GpsTime : Type 0 where
  pub gps_week : ℤ
  pub gps_itow : ℕ
  pub gps_ftow : ℤ
  pub gps_time_ok : Bool

pub record UbxResult : Type 0 where
  pub msg : GpsMsg
  pub msg_size : ℕ
  pub time : GpsTime

-- The 8-bit Fletcher sums, from two values on.
unfoldable pub fletcher : ℕ → ℕ → List ℕ → ℕ × ℕ
fletcher ck_a ck_b [] = (ck_a, ck_b)
fletcher ck_a ck_b (x ∷ xs) = fletcher (u8 (ck_a + x)) (u8 (ck_b + u8 (ck_a + x))) xs

abbrev pub le_16 : List ℕ → ℕ → ℕ
le_16 buff i = bit_or (get_or buff i 0) (get_or buff (i + 1) 0 * 2 ^ 8)

abbrev pub le_32 : List ℕ → ℕ → ℕ
le_32 buff i =
    bit_or (bit_or (le_16 buff i) (get_or buff (i + 2) 0 * 2 ^ 16)) (get_or buff (i + 3) 0 * 2 ^ 24)

abbrev pub ubx_payload_length : List ℕ → ℕ
ubx_payload_length buff = le_16 buff 4

abbrev pub ubx_msg_size : List ℕ → ℕ
ubx_msg_size buff = 6 + ubx_payload_length buff + 2

abbrev pub has_ubx_sync : List ℕ → Bool
has_ubx_sync buff = get_or buff 0 0 == 0xb5 && get_or buff 1 0 == 0x62

-- The sums over class, identifier, length and payload are those received.
unfoldable pub is_ubx_checksum : List ℕ → Bool
is_ubx_checksum buff =
    let sums = fletcher 0 0 (take (4 + ubx_payload_length buff) (drop 2 buff)) in
    sums.0 == get_or buff (ubx_msg_size buff - 2) 0
    && sums.1 == get_or buff (ubx_msg_size buff - 1) 0

-- The time of a NAV-TIMEGPS message, if it is marked as valid.
unfoldable pub parse_timegps : List ℕ → GpsTime → GpsTime
parse_timegps buff time =
    if bit_and (get_or buff 17 0) 3 == 0 then record time { gps_time_ok = false } else record {
      gps_week = to_int16 (le_16 buff 14);
      gps_itow = le_32 buff 6;
      gps_ftow = to_int32 (le_32 buff 10);
      gps_time_ok = true;
    }

-- A message with its checksum right, by class and identifier. The acknowledgements and the messages that
-- are not supported end alike. `none` is a read behind the bytes of `buff`.
unfoldable pub parse_ubx_body : List ℕ → GpsTime → Option UbxResult
unfolding parse_timegps
parse_ubx_body buff time =
    if get_or buff 2 0 == 1 && get_or buff 3 0 == 0x20
    then if ltb 17 (length buff)
      then some (record {
        msg = ubx_nav_timegps;
        msg_size = ubx_msg_size buff;
        time = parse_timegps buff time;
      })
      else none
    else some (record { msg = ignored; msg_size = ubx_msg_size buff; time = time })

-- The last of the first two bytes that is read.
unfoldable pub sync_last : List ℕ → ℕ
sync_last buff = if get_or buff 0 0 == 0xb5 then 1 else 0

-- `lgw_parse_ubx` on the bytes of an array, of which the caller says that `buff_size` are filled. Here and below `none`
-- is a read behind the array.
unfoldable pub parse_ubx : List ℕ → ℕ → GpsTime → Option UbxResult
unfolding is_ubx_checksum parse_ubx_body
parse_ubx buff buff_size time =
    if ltb buff_size 8
    then some (record { msg = ignored; msg_size = 0; time = time })
    else if leb (length buff) (sync_last buff)
    then none
    else if not (has_ubx_sync buff)
    then some (record { msg = ignored; msg_size = 0; time = time })
    else if leb (length buff) 5
    then none
    else if ltb buff_size (ubx_msg_size buff)
    then some (record { msg = incomplete; msg_size = ubx_msg_size buff; time = time })
    else if ltb (length buff) (ubx_msg_size buff)
    then none
    else if is_ubx_checksum buff
    then parse_ubx_body buff time
    else some (record { msg = invalid; msg_size = ubx_msg_size buff; time = time })
