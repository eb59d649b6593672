-- ===== src/Lib.antt =====
-- Verification of the LoRa uplink gateway: the queue that decides when a downlink is sent, and the code
-- of the concentrator library around it.
--
-- The packet forwarder takes downlinks from the network as text, decodes their payload (`Base64`), and
-- puts them in the just-in-time queue (`Jit`), which reserves their time on the air (`Hal.TimeOnAir`)
-- against the counter of the concentrator (`Timestamp`). Its thread `thread_jit` takes the packets that are
-- due (`Forward`) and hands them to the library (`Hal`), whose driver writes them to the registers and the
-- memory of the chip (`Sx1302`, `Reg`), over the link (`Spi`, `Mcu`).
--
-- * `Jit` models packet_forwarder/src/jitqueue.c, of which clusterduck/src/jitqueue.c is a copy: `Types`
--   holds the structures and constants, `Queue` the small operations and the sort, `Collision` the test
--   of two packets, and `Enqueue`, `Dequeue` and `Peek` the three entry points. The array is a list of
--   32 nodes, and a result is the error code with the queue afterwards. `qsort_r` is a parameter
--   (`Sorter`), of which only its permuting the entries is used, so that the overflow of `compare` does
--   not matter. `Air` says what it is for transmissions to be apart, and follows the sequences of calls.
-- * `Base64` models libtools/src/base64.c. Characters are numbers, a call of `exit` and the value -1 are
--   results of their own.
-- * `Timestamp` models the counters and the PPS history of libloragw/src/loragw_sx1302_timestamp.c. The
--   bytes read from the chip are arguments. `Correction` computes the delays of the modem.
-- * `Rx` models libloragw/src/loragw_sx1302_rx.c, and `sx1302_fetch` of libloragw/src/loragw_sx1302.c.
--   `Buffer` fetches the bytes of the FIFO and counts the packets, `Pop` hands them out, and `Frames` says
--   what the buffer holds by the packets that are left. Accesses outside an array are results of their own.
-- * `Hal` models libloragw/src/loragw_hal.c and what it is made of. `TimeOnAir` is the LoRa time on air of
--   libloragw/src/loragw_aux.c and `lgw_time_on_air`. Times that C computes in `double` are integers here:
--   quarters of a symbol, and quotients that are truncated. The FSK branch is a parameter. `Config` holds
--   the context and the functions `lgw_..._setconf`; `Merge` removes the duplicates of a reception, with
--   `qsort_r` as a parameter, and `Receive` hands the packets out; `Send` checks a packet and sends it,
--   with listening before talk (`Lbt`, libloragw/src/loragw_lbt.c). The calls that a transmission makes of
--   the drivers are a list in its result, and their answers are arguments.
-- * `Reg` models libloragw/src/loragw_reg.c, over a link to the chip: `Mem` the accesses to the memory in
--   chunks, `Table` the array `loregs`, `Field` the bits of a register, and `Access` the functions that
--   take the number of a register. `Spi` models the link of libloragw/src/loragw_spi.c, over the call of
--   `ioctl`: `Chip` and `Burst` say what the chip answers, and that the link is one that `Reg` takes.
-- * `Sx1302` models `sx1302_send` of libloragw/src/loragw_sx1302.c as the list of writes that it makes:
--   `Send`, with those for each modem in `Modem`, the gains in `Gain`, and the numbers of the registers in
--   `Regs`. The first write that fails ends the function. The preamble that the function stores in the
--   caller's packet is left out, and what C leaves undefined (0 / 0 as an `int`, and shifts that are too wide)
--   is a parameter.
-- * `Forward` models parts of packet_forwarder/src/lora_pkt_fwd.c: `Jit` the turns of `thread_jit`, with the
--   library's answers as arguments, and `Power` the function `get_tx_gain_lut_index`, whose choice
--   `Power.Agreed` compares with that of `sx1302_send`.
-- * `Mcu` models libloragw/src/loragw_mcu.c: the frames exchanged with the microcontroller (`write_req`,
--   `read_ack`), with the results of the system calls as arguments, and the requests for the SPI buses that
--   are stored (`mcu_spi_store`), sent together, and whose answers are checked (`mcu_spi_flush`).
-- * `Gps` models `lgw_parse_ubx` of libloragw/src/loragw_gps.c, with the variables that it sets, on the bytes of
--   an array. Reads behind it are a result of their own.
-- * `Prelude` holds the shared names, list operations over the native numbers, and integer helpers.
--
-- Integers are natural numbers with the wrap-around of C written out. A sum of two `int32_t` that overflows
-- is undefined in C; in `lgw_rxif_setconf` it wraps here too, and the invariant of `Hal.Config` excludes it. The loop of `jit_peek` runs on
-- fuel: a purge shortens the queue, and a pass takes at most 33 steps, so that 1122 steps are enough for
-- 32 packets. The loop that counts fetched packets has one step more than there are bytes, and a packet
-- takes at least 23. The loop that removes duplicates has 65536 steps: a removal takes one of at most 255
-- packets, and at most 255 steps lie between two. The loops over the chunks of a buffer have one step for
-- each byte and one more, and so has the check of the microcontroller's answers, which take five bytes or
-- more. The waits for a transmission run over the list of the drivers' answers.
--
-- Not modelled: the sockets of the packet forwarder and its other threads, the start of the concentrator
-- with its firmware and calibration, the other buses and the opening of devices, the other requests to the
-- microcontroller (ping, status, GPIO and boot loader), and what is computed with floating-point numbers that do not come out exact. Mutexes only keep the threads apart,
-- and debug messages change nothing.
mod Prelude
pub mod Forward
pub mod Gps
pub mod Hal
pub mod Base64
pub mod Jit
pub mod Mcu
pub mod Reg
pub mod Spi
pub mod Rx
pub mod Sx1302
pub mod Timestamp
