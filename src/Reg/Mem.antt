-- ===== src/Reg/Mem.antt =====
-- libloragw/src/loragw_reg.c: `lgw_mem_wb` and `lgw_mem_rb`, which take a buffer apart into the chunks that the
-- link transfers at once. The link is a parameter.
pub mod Write
pub mod Answer
use meshbeacon_uplink.Prelude.{
  ℕ, zero, suc, ◌+◌, ◌-◌, ◌*◌, ◌<◌, ◌≤◌, ◌≡◌, Bool, true, false, List, [], ◌∷◌, ◌++◌, Option, none,
  some, ltb, ◌==◌, if◌then◌else◌, length, take, drop, get_or, u16,
}

-- The link: a burst write and a burst read at an address, with the state of the chip.
pub record Link (S : Type 0) : Type 0 where
  pub lgw_com_wb : S → ℕ → List ℕ → Bool × S
  pub lgw_com_rb : S → ℕ → ℕ → Bool × List ℕ × S
  pub chunk_size_max : ℕ

-- What the accesses have reported and left: whether the last one succeeded, and the chip.
module _ {S : Type 0} (link : Link S) where
  abbrev pub chunk_size : ℕ → ℕ
  chunk_size sz_todo = if ltb link.chunk_size_max sz_todo then link.chunk_size_max else sz_todo

  -- `com_stat` is overwritten by each chunk. `none` where the fuel runs out.
  unfoldable pub write_chunks : ℕ → List ℕ → S → ℕ → ℕ → ℕ → Bool → Option (Bool × S)
  write_chunks zero buf s addr sz_todo chunk_cnt com_stat = none
  write_chunks (suc fuel) buf s addr sz_todo chunk_cnt com_stat =
      let size = chunk_size sz_todo in
      let done = link.lgw_com_wb s addr (take size (drop (chunk_cnt * link.chunk_size_max) buf)) in
      let rest =
        write_chunks fuel buf (done.1) (u16 (addr + size)) (sz_todo - size) (chunk_cnt + 1)
          (done.0) in
      if sz_todo == 0 then some (com_stat, s) else rest

  -- One step for each byte, and one to see the end.
  unfoldable pub lgw_mem_wb : S → ℕ → List ℕ → ℕ → Option (Bool × S)
  lgw_mem_wb s mem_addr buf size =
      if size == 0 then some (false, s) else write_chunks (size + 1) buf s mem_addr size 0 true

  -- The bytes read are put one chunk behind the other. In FIFO mode the address stays.
  unfoldable pub read_chunks : ℕ → Bool → S → ℕ → ℕ → List ℕ → Bool → Option (Bool × List ℕ × S)
  read_chunks zero fifo_mode s addr sz_todo buf com_stat = none
  read_chunks (suc fuel) fifo_mode s addr sz_todo buf com_stat =
      let size = chunk_size sz_todo in
      let (ok, bytes, t) = link.lgw_com_rb s addr size in
      let next = if fifo_mode then addr else u16 (addr + size) in
      let rest = read_chunks fuel fifo_mode t next (sz_todo - size) (buf ++ bytes) ok in
      if sz_todo == 0 then some (com_stat, buf, s) else rest

  unfoldable pub lgw_mem_rb : S → ℕ → ℕ → Bool → Option (Bool × List ℕ × S)
  lgw_mem_rb s mem_addr size fifo_mode =
      if size == 0
      then some (false, [], s)
      else read_chunks (size + 1) fifo_mode s mem_addr size [] true
