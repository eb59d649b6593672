-- ===== src/Reg/Access/Holds.antt =====
-- libloragw/src/loragw_reg.c: on a chip whose bytes keep what is written, a register keeps the value written, and the
-- others keep theirs.
use native.Mathlib.Nat.{mod-lt}
use meshbeacon_uplink.Prelude.{
  ℕ, ◌+◌, ◌%◌, ◌^◌, ◌<◌, ◌≤◌, ◌≡◌, ◌≢◌, ◌⊎◌, inl, inr, sym, ap, ap₂, subst, ◌∙◌, Bool, true, false,
  ◌&&◌, Option, none, some, leb, ◌==◌, arith, if_true, if_false, and_split, Bool-cases, if_split,
  ==_iff,
}
use meshbeacon_uplink.Prelude.Int.{ℤ, pos, negsuc}
use meshbeacon_uplink.Prelude.Bits.Field.{
  get_field, put_field, get-put, get-put_other, put-lt, pow-pos,
}
use meshbeacon_uplink.Reg.Field.{
  LgwReg, Com, reg_w, reg_r, lgw_spi_rmw, field_value, mix_byte, to_uint8,
}
use meshbeacon_uplink.Reg.Field.Bits.{mix_byte-put}
use meshbeacon_uplink.Reg.Field.Value.{signed_value, field_value_lem, signed_value-back}
use meshbeacon_uplink.Reg.Table.{reg_at, lgw_totalregs}
use meshbeacon_uplink.Reg.Table.Order.{is_value, first_bit, end_bit}
use meshbeacon_uplink.Reg.Table.Apart.{AreApart, reg_at_sound, reg_at-AreApart}
use meshbeacon_uplink.Reg.Access.{lgw_reg_w, lgw_reg_r}

-- Accesses to single bytes, at addresses of 15 bits, succeed, a write changes the byte at its address, and a read changes
-- none.
pub record KeepsBytes {S : Type 0} (link : Com S) (byte : S → ℕ → ℕ) : Type 0 where
  pub is_byte : (s : S) (a : ℕ) → byte s a < 256
  pub read_ok : (s : S) (a : ℕ) → a < 0x8000 → (link.lgw_com_r s a).0 ≡ true
  pub read_byte : (s : S) (a : ℕ) → a < 0x8000 → (link.lgw_com_r s a).1 ≡ byte s a
  pub read_keeps : (s : S) (a b : ℕ) → a < 0x8000 → byte (link.lgw_com_r s a).2 b ≡ byte s b
  pub write_ok : (s : S) (a v : ℕ) → a < 0x8000 → v < 256 → (link.lgw_com_w s a v).0 ≡ true
  pub write_byte : (s : S) (a v : ℕ) → a < 0x8000 → v < 256 → byte (link.lgw_com_w s a v).1 a ≡ v
  pub write_keeps :
      (s : S) (a b v : ℕ)
      → a < 0x8000
      → v < 256
      → a ≢ b
      → byte (link.lgw_com_w s a v).1 b ≡ byte s b

to_uint8-lt : (z : ℤ) → to_uint8 z < 256
unfolding to_uint8
to_uint8-lt (pos n) = omega arith
to_uint8-lt (negsuc n) = omega arith

-- A register that fills its byte.
whole_byte :
    (offs leng x v : ℕ)
    → (leng == 8 && (offs == 0)) ≡ true
    → x < 256
    → v < 256
    → put_field offs leng x (v % 2 ^ leng) ≡ v
unfolding put_field
whole_byte offs leng x v whole hx hv =
    let (eight, zero_offs) = and_split (leng == 8) (offs == 0) whole in
    let l : leng ≡ 8 = (==_iff leng 8).0 eight in
    let o : offs ≡ 0 = (==_iff offs 0).0 zero_offs in rw (l, o) (omega arith)

module _ {S : Type 0} (link : Com S) (byte : S → ℕ → ℕ) (chip : KeepsBytes link byte) where
  -- A register whose bits are replaced, in the byte where it lies.
  record Put (s : S) (r : LgwReg) (v : ℕ) (out : Bool × S) : Type 0 where
    put_ok : out.0 ≡ true
    put_here : byte (out.1) r.addr ≡ put_field r.offs r.leng (byte s r.addr) v
    put_keeps : (a : ℕ) → r.addr ≢ a → byte (out.1) a ≡ byte s a

  lgw_spi_rmw-Put :
      (s : S) (r : LgwReg) (v : ℕ)
      → r.offs + r.leng ≤ 8
      → r.addr < 0x8000
      → Put s r (v % 2 ^ r.leng) (lgw_spi_rmw link s r.addr r.offs r.leng v)
  unfolding lgw_spi_rmw
  lgw_spi_rmw-Put s r v fits low =
      let x = byte s r.addr in
      let t = (link.lgw_com_r s r.addr).2 in
      let old = (link.lgw_com_r s r.addr).1 in
      let mix = mix_byte r.offs r.leng old v in
      let d = mod-lt v (pow-pos r.leng) in
      let is_put : mix ≡ put_field r.offs r.leng x (v % 2 ^ r.leng) =
        ap (λ (b : ℕ). mix_byte r.offs r.leng b v) (chip.read_byte s r.addr low)
        ∙ mix_byte-put r.offs r.leng x v fits (chip.is_byte s r.addr) in
      let small_put = put-lt r.offs r.leng 8 x (v % 2 ^ r.leng) fits d (chip.is_byte s r.addr) in
      let small : mix < 256 = omega (arith, is_put, small_put) in
      record {
        put_ok = ap₂ (◌&&◌) (chip.read_ok s r.addr low) (chip.write_ok t r.addr mix low small);
        put_here = chip.write_byte t r.addr mix low small ∙ is_put;
        put_keeps =
            λ a n. chip.write_keeps t r.addr a mix low small n ∙ chip.read_keeps s r.addr a low;
      }

  reg_w-Put :
      (s : S) (r : LgwReg) (z : ℤ)
      → r.offs + r.leng ≤ 8
      → r.addr < 0x8000
      → Put s r (to_uint8 z % 2 ^ r.leng) (reg_w link s r z)
  unfolding reg_w
  reg_w-Put s r z fits low =
      if_split (Put s r (to_uint8 z % 2 ^ r.leng)) ((r.leng == 8) && (r.offs == 0)) _ _
        (λ whole. (record {
          put_ok = chip.write_ok s r.addr (to_uint8 z) low (to_uint8-lt z);
          put_here =
              chip.write_byte s r.addr (to_uint8 z) low (to_uint8-lt z)
              ∙ sym (
                  whole_byte r.offs r.leng (byte s r.addr) (to_uint8 z) whole
                    (chip.is_byte s r.addr) (to_uint8-lt z));
          put_keeps = λ a n. chip.write_keeps s r.addr a (to_uint8 z) low (to_uint8-lt z) n;
        }))
        (λ part.
          subst (Put s r (to_uint8 z % 2 ^ r.leng))
            (sym (if_true (leb (r.offs + r.leng) 8) _ _ (ground arith)))
            (lgw_spi_rmw-Put s r (to_uint8 z) fits low))

  reg_r-reads :
      (s : S) (r : LgwReg)
      → r.offs + r.leng ≤ 8
      → r.addr < 0x8000
      → ((reg_r link s r).0 ≡ true) × ((reg_r link s r).1 ≡ some (field_value r (byte s r.addr)))
  unfolding reg_r
  reg_r-reads s r fits low =
      let test : leb (r.offs + r.leng) 8 ≡ true = ground (arith, fits) in
      (
        ap (λ (p : Bool × Option ℤ × S). p.0) (if_true _ _ _ test) ∙ chip.read_ok s r.addr low,
        ap (λ (p : Bool × Option ℤ × S). p.1) (if_true _ _ _ test)
            ∙ ap (λ (b : ℕ). some (field_value r b)) (chip.read_byte s r.addr low),
      )

  -- The bits of another register.
  Put-other :
      (s : S) (r q : LgwReg) (v : ℕ) (out : Bool × S)
      → r.offs + r.leng ≤ 8
      → q.offs + q.leng ≤ 8
      → v < 2 ^ r.leng
      → AreApart r q
      → Put s r v out
      → get_field q.offs q.leng (byte (out.1) q.addr) ≡ get_field q.offs q.leng (byte s q.addr)
  unfolding AreApart first_bit end_bit
  Put-other s r q v out fits fits' h apart p = elim (Bool-cases (r.addr == q.addr)) [
    | inr other ↦
        let n : r.addr ≢ q.addr = ground (arith, other) in
        ap (get_field q.offs q.leng) (p.put_keeps q.addr n)
    | inl same ↦
        let e = (==_iff r.addr q.addr).0 same in
        let beside : (q.offs + q.leng ≤ r.offs) ⊎ (r.offs + r.leng ≤ q.offs) =
          ground (arith, apart, e) in
        ap (λ (a : ℕ). get_field q.offs q.leng (byte (out.1) a)) (sym e)
        ∙ ap (get_field q.offs q.leng) p.put_here
        ∙ get-put_other r.offs r.leng q.offs q.leng (byte s r.addr) v h beside
        ∙ ap (λ (a : ℕ). get_field q.offs q.leng (byte s a)) e
  ]

  lgw_reg_w-Put :
      (s : S) (i : ℕ) (z : ℤ)
      → i < lgw_totalregs
      → (reg_at i).rdon ≡ false
      → Put s (reg_at i) (to_uint8 z % 2 ^ (reg_at i).leng) (lgw_reg_w link s i z)
  unfolding lgw_reg_w
  lgw_reg_w-Put s i z hi writable =
      let r = reg_at i in
      let (one, fits, low, value) = reg_at_sound i hi in
      let P = Put s r (to_uint8 z % 2 ^ r.leng) in
      subst P
        (sym
          (if_false (leb lgw_totalregs i) _ _ (ground (arith, hi)) ∙ if_false r.rdon _ _ writable))
        (reg_w-Put s r z fits low)

  lgw_reg_r-reads :
      (s : S) (i : ℕ)
      → i < lgw_totalregs
      → ((lgw_reg_r link s i).0 ≡ true)
        × ((lgw_reg_r link s i).1
            ≡ some (
                signed_value
                  (reg_at i)
                  (get_field (reg_at i).offs (reg_at i).leng (byte s (reg_at i).addr))))
  unfolding lgw_reg_r
  lgw_reg_r-reads s i hi =
      let r = reg_at i in
      let (one, fits, low, value) = reg_at_sound i hi in
      let open_call =
        if_false (leb lgw_totalregs i) (false, none, s) (reg_r link s r) (ground (arith, hi)) in
      let reads = reg_r-reads s r fits low in
      (
        ap (λ (p : Bool × Option ℤ × S). p.0) open_call ∙ reads.0,
        ap (λ (p : Bool × Option ℤ × S). p.1) open_call
            ∙ reads.1
            ∙ ap some (field_value_lem r (byte s r.addr) one fits),
      )

  -- Writing a value that fits a register, not read-only, of the table succeeds, reading it again gives the value, and
  -- reading any other register of the table gives what it gave before, if the chip keeps its bytes.
  pub lgw_reg_w-Holds :
      (s : S) (i j : ℕ) (z : ℤ)
      → i < lgw_totalregs
      → j < lgw_totalregs
      → i ≢ j
      → (reg_at i).rdon ≡ false
      → is_value (reg_at i) z ≡ true
      → let out = lgw_reg_w link s i z in
        (out.0 ≡ true)
        × (((lgw_reg_r link out.1 i).0 ≡ true) × ((lgw_reg_r link out.1 i).1 ≡ some z))
        × (((lgw_reg_r link out.1 j).0 ≡ true)
            × ((lgw_reg_r link out.1 j).1 ≡ (lgw_reg_r link s j).1))
  lgw_reg_w-Holds s i j z hi hj n writable h =
      let r = reg_at i in
      let q = reg_at j in
      let out = lgw_reg_w link s i z in
      let v = to_uint8 z % 2 ^ r.leng in
      let (one, fits, low, value) = reg_at_sound i hi in
      let (one', fits', low', value') = reg_at_sound j hj in
      let v-fits = mod-lt (to_uint8 z) (pow-pos r.leng) in
      let put = lgw_reg_w-Put s i z hi writable in
      let mine = lgw_reg_r-reads out.1 i hi in
      let theirs = lgw_reg_r-reads out.1 j hj in
      let apart = (reg_at-AreApart i j hi hj n).1 in
      (
        put.put_ok,
        (
          mine.0,
          mine.1
              ∙ ap (λ (b : ℕ). some (signed_value r (get_field r.offs r.leng b))) put.put_here
              ∙ ap (λ (t : ℕ). some (signed_value r t))
                  (get-put r.offs r.leng (byte s r.addr) v v-fits)
              ∙ ap some (signed_value-back r z one (omega (arith, fits)) h),
        ),
        (
          theirs.0,
          theirs.1
              ∙ ap (λ (t : ℕ). some (signed_value q t))
                  (Put-other s r q v out fits fits' v-fits apart put)
              ∙ sym (lgw_reg_r-reads s j hj).1,
        ),
      )
