-- ===== src/Rx/Buffer.antt =====
-- libloragw/src/loragw_sx1302_rx.c: the buffer of received packets, `rx_buffer_new`, `rx_buffer_del` and
-- `rx_buffer_fetch`. Functions that return at once on a null pointer are modelled with a valid one.
pub mod Total
use meshbeacon_uplink.Prelude.{
  ℕ, zero, suc, ◌+◌, ◌-◌, ◌*◌, ◌^◌, ◌&&◌, Bool, true, false, List, [], ◌∷◌, ◌++◌, Option, none,
  some, leb, ltb, ◌==◌, if◌then◌else◌, length, take, drop, replicate, get_or, bit_or, u8, u16,
}

pub record RxBuffer : Type 0 where
  pub buffer : List ℕ
  pub buffer_size : ℕ
  pub buffer_index : ℕ
  pub buffer_pkt_nb : ℕ

pub data RegStatus : Type 0 where
  success error warning : RegStatus

-- The length of the array.
abbrev pub buffer_max : ℕ
buffer_max = 4096

abbrev pub syncword_byte_0 : ℕ
syncword_byte_0 = 0xa5

abbrev pub syncword_byte_1 : ℕ
syncword_byte_1 = 0xc0

abbrev pub head_metadata : ℕ
head_metadata = 9

abbrev pub tail_metadata : ℕ
tail_metadata = 14

unfoldable pub buffer_new : RxBuffer → RxBuffer
buffer_new self = record {
  buffer = replicate buffer_max 0;
  buffer_size = 0;
  buffer_index = 0;
  buffer_pkt_nb = 0;
}

-- The bytes stay in the array.
unfoldable pub buffer_del : RxBuffer → RxBuffer
buffer_del self = record self { buffer_size = 0; buffer_index = 0; buffer_pkt_nb = 0 }

abbrev pub byte_at : List ℕ → ℕ → ℕ
byte_at buffer i = get_or buffer i 0

-- The test of a syncword at `i`, an index of the array. The second byte is read if the first is right, and
-- `none` is a read behind the array.
unfoldable pub is_sync : List ℕ → ℕ → Option Bool
is_sync buffer i =
    if byte_at buffer i == syncword_byte_0
    then if ltb (i + 1) buffer_max then some (byte_at buffer (i + 1) == syncword_byte_1) else none
    else some false

-- The payload length and the number of timestamp metrics of the packet at `i`.
abbrev pub payload_length : List ℕ → ℕ → ℕ
payload_length buffer i = u8 (byte_at buffer (i + 2))

abbrev pub num_ts_metrics : List ℕ → ℕ → ℕ
num_ts_metrics buffer i = u8 (byte_at buffer (i + payload_length buffer i + 21))

-- The last byte that is read to know the size of the packet at `i`.
abbrev pub last_read : List ℕ → ℕ → ℕ
last_read buffer i = i + payload_length buffer i + 21

abbrev pub packet_size : List ℕ → ℕ → ℕ
packet_size buffer i =
    head_metadata + payload_length buffer i + tail_metadata + 2 * num_ts_metrics buffer i

-- The index of the first syncword, in the bytes received.
unfoldable pub find_sync : List ℕ → Option ℕ
find_sync [] = none
find_sync (x ∷ []) = none
find_sync (x ∷ y ∷ bytes) =
    let rest = find_sync (y ∷ bytes) in
    if x == syncword_byte_0 && y == syncword_byte_1
    then some 0
    else elim rest [ none ↦ none | some i ↦ some (suc i) ]

-- `counted` holds the number of packets, `lost` is a packet without a syncword, and `outside` a read
-- behind the array.
pub data Count : Type 0 where
  counted : ℕ → Count
  lost outside out_of_fuel : Count

unfoldable pub count_packets : ℕ → List ℕ → ℕ → ℕ → ℕ → Count
unfolding is_sync
count_packets zero buffer size idx pkt_nb = out_of_fuel
count_packets (suc fuel) buffer size idx pkt_nb =
    let next = count_packets fuel buffer size (idx + packet_size buffer idx) (u8 (pkt_nb + 1)) in
    if leb size idx then counted pkt_nb else elim (is_sync buffer idx) [
      | none ↦ outside
      | some false ↦ lost
      | some true ↦ if ltb (last_read buffer idx) buffer_max then next else outside
    ]

-- The move of the bytes from `idx` on to the front. The bytes behind them stay.
unfoldable pub resync : RxBuffer → ℕ → RxBuffer
resync self idx = record self {
  buffer =
      drop idx (take self.buffer_size self.buffer) ++ drop (self.buffer_size - idx) self.buffer;
  buffer_size = self.buffer_size - idx;
}

-- `fault` is an access outside the array, which C leaves undefined.
pub data FetchResult : Type 0 where
  returns : RegStatus → RxBuffer → FetchResult
  fault out_of_fuel : FetchResult

unfoldable pub count_fetched : RxBuffer → FetchResult
unfolding count_packets
count_fetched self =
    elim (count_packets (suc self.buffer_size) self.buffer self.buffer_size 0 self.buffer_pkt_nb) [
      | counted n ↦ returns success (record self { buffer_index = 0; buffer_pkt_nb = n })
      | lost ↦ returns success (buffer_del self)
      | outside ↦ fault
      | Count.out_of_fuel ↦ FetchResult.out_of_fuel
    ]

unfoldable pub use_fetched : RxBuffer → FetchResult
unfolding resync buffer_del
use_fetched self =
    if ltb self.buffer_size (head_metadata + tail_metadata)
    then returns success (buffer_del self)
    else elim (find_sync (take self.buffer_size self.buffer)) [
      | none ↦ returns success (buffer_del self)
      | some idx ↦ count_fetched (resync self idx)
    ]

-- The two bytes of the FIFO's level.
abbrev pub nb_bytes : ℕ × ℕ → ℕ
nb_bytes b = u16 (bit_or (b.0 * 2 ^ 8) b.1)

abbrev pub fetched_size : ℕ × ℕ → ℕ × ℕ → ℕ
fetched_size first second =
    if ltb (nb_bytes first) (nb_bytes second) then nb_bytes second else nb_bytes first

-- `lgw_mem_rb` on the FIFO, by the number of bytes to read: whether it succeeds, and the bytes that it puts
-- at the start of the array.
module _ (lgw_mem_rb : ℕ → Bool × List ℕ) where
  -- `first` and `second` are the two readings of the FIFO's level.
  unfoldable pub fetch : RxBuffer → ℕ × ℕ → ℕ × ℕ → FetchResult
  fetch self first second =
      let size = fetched_size first second in
      let bytes = (lgw_mem_rb size).1 in
      let filled = record self {
        buffer = bytes ++ replicate (buffer_max - length bytes) 0;
        buffer_size = size;
      } in
      if size == 0
      then returns success (record self { buffer_size = 0; buffer_index = 0 })
      else if ltb buffer_max size
      then fault
      else if (lgw_mem_rb size).0
      then use_fetched filled
      else returns error filled
