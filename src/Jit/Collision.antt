-- ===== src/Jit/Collision.antt =====
-- jitqueue.c: `jit_collision_test`, and the windows that it compares.
use meshbeacon_uplink.Prelude.{
  ℕ, ◌+◌, ◌-◌, ◌≤◌, ◌<◌, ◌≡◌, ◌≢◌, Bool, false, ◌||◌, arith, leb, u32, sub_u32,
}
use meshbeacon_uplink.Jit.Types.{tx_margin_delay}

-- The time that must lie between two packets: the delays and the margin, on `uint32_t`.
unfoldable pub collision_test : ℕ → ℕ → ℕ → ℕ → ℕ → ℕ → Bool
collision_test p1_count_us p1_pre_delay p1_post_delay p2_count_us p2_pre_delay p2_post_delay =
    leb (sub_u32 p1_count_us p2_count_us) (u32 (p1_pre_delay + p2_post_delay + tx_margin_delay))
    || leb (sub_u32 p2_count_us p1_count_us) (u32 (p2_pre_delay + p1_post_delay + tx_margin_delay))

pub collision_test_comm :
    (t1 pre1 post1 t2 pre2 post2 : ℕ)
    → collision_test t1 pre1 post1 t2 pre2 post2 ≡ collision_test t2 pre2 post2 t1 pre1 post1
unfolding collision_test
collision_test_comm t1 pre1 post1 t2 pre2 post2 = ground arith

sub_u32-shift : (k a b : ℕ) → b < 4294967296 → sub_u32 (u32 (a + k)) (u32 (b + k)) ≡ sub_u32 a b
sub_u32-shift k a b h = omega arith

-- The test does not depend on where the counter stands: shifting both packets by `k` changes nothing.
pub collision_test-shift :
    (k t1 pre1 post1 t2 pre2 post2 : ℕ)
    → t1 < 4294967296
    → t2 < 4294967296
    → collision_test (u32 (t1 + k)) pre1 post1 (u32 (t2 + k)) pre2 post2
      ≡ collision_test t1 pre1 post1 t2 pre2 post2
unfolding collision_test
collision_test-shift k t1 pre1 post1 t2 pre2 post2 h1 h2 =
    rw (sub_u32-shift k t1 t2 h2, sub_u32-shift k t2 t1 h1)

-- An instant of the window that a packet reserves: `i` after the start of its pre-delay.
abbrev pub instant : ℕ → ℕ → ℕ → ℕ
instant count_us pre_delay i = u32 (count_us + 4294967296 - pre_delay + i)

-- Packets that the test lets pass reserve windows with no instant in common, however the 32-bit
-- counter wraps, provided that the required distances fit the counter.
pub collision_test_disjoint :
    (t1 pre1 post1 t2 pre2 post2 i j : ℕ)
    → t1 < 4294967296
    → t2 < 4294967296
    → pre1 + post2 + 1000 < 4294967296
    → pre2 + post1 + 1000 < 4294967296
    → collision_test t1 pre1 post1 t2 pre2 post2 ≡ false
    → i ≤ pre1 + post1
    → j ≤ pre2 + post2
    → instant t1 pre1 i ≢ instant t2 pre2 j
unfolding collision_test
collision_test_disjoint t1 pre1 post1 t2 pre2 post2 i j h1 h2 fit1 fit2 free hi hj e = ground arith
