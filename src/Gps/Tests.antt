-- ===== src/Gps/Tests.antt =====
-- The parser of GPS messages on concrete bytes.
use meshbeacon_uplink.Prelude.{ℕ, ◌≡◌, refl, false, List, [], ◌∷◌, none, some, Option, arith}
use meshbeacon_uplink.Prelude.Int.{pos}
use meshbeacon_uplink.Gps.Ubx.{
  GpsTime, UbxResult, ubx_nav_timegps, GpsMsg, fletcher, parse_ubx_body, is_ubx_checksum, sync_last,
  parse_ubx,
}
use meshbeacon_uplink.Gps.Ubx.Progress.{Progresses, parse_ubx-Progresses}

abbrev no_time : GpsTime
no_time = record { gps_week = pos 0; gps_itow = 0; gps_ftow = pos 0; gps_time_ok = false }

-- A NAV-TIMEGPS message.
abbrev timegps : List ℕ
timegps =
    181 ∷ 98 ∷ 1 ∷ 32 ∷ 16 ∷ 0 ∷ 1 ∷ 2 ∷ 3 ∷ 4 ∷ 5 ∷ 6 ∷ 7 ∷ 8 ∷ 9 ∷ 10 ∷ 11 ∷ 3 ∷ 12 ∷ 13 ∷ 14 ∷ 15
    ∷ 172 ∷ 141 ∷ []

abbrev msg_of : Option UbxResult → GpsMsg
msg_of none = GpsMsg.unknown
msg_of (some r) = r.msg

timegps_accepted : msg_of (parse_ubx timegps 24 no_time) ≡ ubx_nav_timegps
unfolding parse_ubx sync_last parse_ubx_body is_ubx_checksum fletcher
timegps_accepted = refl

parse_ubx-Progresses_example :
    (r : UbxResult) × (parse_ubx timegps 24 no_time ≡ some r) × Progresses timegps 24 no_time r
parse_ubx-Progresses_example = parse_ubx-Progresses timegps 24 no_time (omega arith) (omega arith)
