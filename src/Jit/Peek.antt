-- ===== src/Jit/Peek.antt =====
-- jitqueue.c: `jit_peek`. The loop runs on fuel.
pub mod Total
pub mod Due
pub mod Purge
use meshbeacon_uplink.Prelude.{
  ℕ, zero, suc, ◌+◌, Bool, true, false, Option, none, some, ltb, leb, sub_u32, if◌then◌else◌,
}
use meshbeacon_uplink.Jit.Types.{tx_max_advance_delay, tx_jit_delay, JitError, JitNode, JitQueue}
use meshbeacon_uplink.Jit.Queue.{Sorter, is_empty}
use meshbeacon_uplink.Jit.Dequeue.{node_at, remove_node}

-- What is stored at `pkt_idx`: `no_packet` is -1.
pub data PktIdx : Type 0 where
  untouched no_packet : PktIdx
  at_index : ℕ → PktIdx

-- `fault` is the read of `nodes[-1]`, which C leaves undefined.
pub data PeekResult : Type 0 where
  returns : JitError → JitQueue → PktIdx → PeekResult
  fault : JitQueue → PeekResult
  out_of_fuel : PeekResult

module _ (time_us : ℕ) where
  -- How far the node at `i` is ahead of the current time, on `uint32_t`.
  unfoldable pub ahead : JitQueue → ℕ → ℕ
  unfolding node_at
  ahead q i = sub_u32 (node_at q i).pkt.count_us time_us

  -- `none` is the index -1.
  unfoldable pub update_highest : JitQueue → Option ℕ → ℕ → Option ℕ
  update_highest q none i = some i
  update_highest q (some best) i = if ltb (ahead q i) (ahead q best) then some i else some best

module _ (s : Sorter) (time_us : ℕ) where
  -- After a purge the loop sets `i` to 0 and `continue` steps it to 1.
  unfoldable pub peek_loop : ℕ → ℕ → Option ℕ → JitQueue → Option (Option ℕ × JitQueue)
  peek_loop zero i best q = none
  peek_loop (suc fuel) i best q =
      let purged = peek_loop fuel 1 best (remove_node s q i) in
      let looked = peek_loop fuel (i + 1) (update_highest time_us q best i) q in
      if leb q.num_pkt i
      then some (best, q)
      else if leb tx_max_advance_delay (ahead time_us q i)
      then purged
      else looked

  unfoldable pub peek_result : Option ℕ → JitQueue → PeekResult
  peek_result none q = fault q
  peek_result (some best) q =
      if ltb (ahead time_us q best) tx_jit_delay
      then returns JitError.ok q (at_index best)
      else returns JitError.ok q no_packet

  abbrev pub peek_fuel : ℕ
  peek_fuel = 1122

  unfoldable pub peek_from : ℕ → JitQueue → PeekResult
  peek_from fuel q = elim (peek_loop fuel 0 none q) [
    | none ↦ out_of_fuel
    | some (best, q') ↦ peek_result best q'
  ]

  -- The caller passes a null pointer, or a place for the index.
  unfoldable pub peek : JitQueue → Bool → PeekResult
  peek q false = returns JitError.invalid q untouched
  peek q true = if is_empty q then returns JitError.empty q untouched else peek_from peek_fuel q
