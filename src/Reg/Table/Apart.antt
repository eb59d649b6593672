-- ===== src/Reg/Table/Apart.antt =====
-- libloragw/src/loragw_reg.c: no two entries of `loregs` share a bit, and each is sound.
use meshbeacon_uplink.Prelude.{
  ℕ, zero, suc, ◌+◌, ◌*◌, ◌<◌, ◌≤◌, ◌≡◌, ◌≢◌, ◌⊎◌, inl, inr, refl, sym, ap, subst, ◌∙◌, true, ◌&&◌,
  List, [], ◌∷◌, ◌++◌, some, leb, ltb, length, get_elem?, get_or, arith, if◌then◌else◌, and_split,
  leb→le, ltb→lt,
}
use meshbeacon_uplink.Reg.Table.Entry.{LgwReg}
use meshbeacon_uplink.Reg.Table.{Block, reg_blocks, flat, loregs, reg_at, lgw_totalregs}
use meshbeacon_uplink.Reg.Table.Order.{
  is_value, first_bit, end_bit, is_sound, ascends, all_ascend, is_apart, all_apart,
  reg_blocks-ascend, reg_blocks-apart, loregs_length,
}

-- A register lies between two bits, and is sound.
record Within (from : ℕ) (below : ℕ) (r : LgwReg) : Type 0 where
  sound : is_sound r ≡ true
  behind : from ≤ first_bit r
  before : end_bit r ≤ below

unfoldable pub AreApart : LgwReg → LgwReg → Type 0
AreApart r s = (end_bit r ≤ first_bit s) ⊎ (end_bit s ≤ first_bit r)

apart_comm : (r s : LgwReg) → AreApart r s → AreApart s r
unfolding AreApart
apart_comm r s (inl h) = inr h
apart_comm r s (inr h) = inl h

first-end : (r : LgwReg) → first_bit r ≤ end_bit r
unfolding first_bit end_bit
first-end r = omega arith

ascends-le : (from below : ℕ) (rs : List LgwReg) → ascends from below rs ≡ true → from ≤ below
unfolding ascends
ascends-le from below [] h = leb→le from below h
ascends-le from below (s ∷ rs) h =
    let (now, rest) =
      and_split (is_sound s && leb from (first_bit s)) (ascends (end_bit s) below rs) h in
    let start : from ≤ first_bit s =
      leb→le from (first_bit s) (and_split (is_sound s) (leb from (first_bit s)) now).1 in
    omega (arith, start, first-end s, ascends-le (end_bit s) below rs rest)

ascends-Within :
    (from below : ℕ) (rs : List LgwReg) (i : ℕ) (r : LgwReg)
    → ascends from below rs ≡ true
    → get_elem? rs i ≡ some r
    → Within from below r
unfolding ascends
ascends-Within from below [] i r h e = absurd (cc e)
ascends-Within from below (s ∷ rs) zero r h e =
    let (now, rest) =
      and_split (is_sound s && leb from (first_bit s)) (ascends (end_bit s) below rs) h in
    let (sound, start) = and_split (is_sound s) (leb from (first_bit s)) now in
    let same : s ≡ r = cc e in
    subst (Within from below) same (record {
      sound = sound;
      behind = leb→le from (first_bit s) start;
      before = ascends-le (end_bit s) below rs rest;
    })
ascends-Within from below (s ∷ rs) (suc i) r h e =
    let (now, rest) =
      and_split (is_sound s && leb from (first_bit s)) (ascends (end_bit s) below rs) h in
    let later = ascends-Within (end_bit s) below rs i r rest e in
    let start : from ≤ first_bit s =
      leb→le from (first_bit s) (and_split (is_sound s) (leb from (first_bit s)) now).1 in
    record {
      sound = later.sound;
      behind = omega (arith, later.behind, start, first-end s);
      before = later.before;
    }

-- Two places of one block.
ascends-AreApart :
    (from below : ℕ) (rs : List LgwReg) (i j : ℕ) (r s : LgwReg)
    → ascends from below rs ≡ true
    → i ≢ j
    → get_elem? rs i ≡ some r
    → get_elem? rs j ≡ some s
    → AreApart r s
unfolding ascends AreApart
ascends-AreApart from below [] i j r s h n e f = absurd (cc e)
ascends-AreApart from below (t ∷ ts) zero zero r s h n e f = absurd (n refl)
ascends-AreApart from below (t ∷ ts) zero (suc j) r s h n e f =
    let rest =
      (and_split (is_sound t && leb from (first_bit t)) (ascends (end_bit t) below ts) h).1 in
    let same : t ≡ r = cc e in
    inl (
      subst (λ u. end_bit u ≤ first_bit s) same
        (ascends-Within (end_bit t) below ts j s rest f).behind)
ascends-AreApart from below (t ∷ ts) (suc i) zero r s h n e f =
    let rest =
      (and_split (is_sound t && leb from (first_bit t)) (ascends (end_bit t) below ts) h).1 in
    let same : t ≡ s = cc f in
    inr (
      subst (λ u. end_bit u ≤ first_bit r) same
        (ascends-Within (end_bit t) below ts i r rest e).behind)
ascends-AreApart from below (t ∷ ts) (suc i) (suc j) r s h n e f =
    let rest =
      (and_split (is_sound t && leb from (first_bit t)) (ascends (end_bit t) below ts) h).1 in
    ascends-AreApart (end_bit t) below ts i j r s rest (λ p. n (ap suc p)) e f

-- Where a place of two lists one behind the other lies.
module _ {ℓ} {A : Type ℓ} where
  get_elem?-append :
      (xs ys : List A) (i : ℕ) (a : A)
      → get_elem? (xs ++ ys) i ≡ some a
      → (get_elem? xs i ≡ some a) ⊎ ((k : ℕ) × (i ≡ length xs + k) × (get_elem? ys k ≡ some a))
  get_elem?-append [] ys i a h = inr (i, omega arith, h)
  get_elem?-append (x ∷ xs) ys zero a h = inl h
  get_elem?-append (x ∷ xs) ys (suc i) a h = elim (get_elem?-append xs ys i a h) [
    | inl here ↦ inl here
    | inr (k, e, there) ↦ inr (k, omega (arith, e), there)
  ]

ranges-AreApart :
    (b c : Block) (r s : LgwReg)
    → (if leb b.below c.from then true else leb c.below b.from) ≡ true
    → Within (8 * b.from) (8 * b.below) r
    → Within (8 * c.from) (8 * c.below) s
    → AreApart r s
unfolding AreApart
ranges-AreApart b c r s away v w = ground (arith, away, v.before, v.behind, w.before, w.behind)

-- A register of the other blocks lies in one of them.
is_apart-AreApart :
    (b : Block) (bs : List Block) (r s : LgwReg) (j : ℕ)
    → is_apart b bs ≡ true
    → all_ascend bs ≡ true
    → Within (8 * b.from) (8 * b.below) r
    → get_elem? (flat bs) j ≡ some s
    → AreApart r s
unfolding is_apart all_ascend flat AreApart
is_apart-AreApart b [] r s j h a w e = absurd (cc e)
is_apart-AreApart b (c ∷ cs) r s j h a w e =
    let (away, others) =
      and_split (if leb b.below c.from then true else leb c.below b.from) (is_apart b cs) h in
    let (here, rest) = and_split (ascends (8 * c.from) (8 * c.below) c.regs) (all_ascend cs) a in
    elim (get_elem?-append c.regs (flat cs) j s e) [
      | inl f ↦
          let v = ascends-Within (8 * c.from) (8 * c.below) c.regs j s here f in
          ranges-AreApart b c r s away w v
      | inr (k, p, f) ↦ is_apart-AreApart b cs r s k others rest w f
    ]

flat-AreApart :
    (bs : List Block) (i j : ℕ) (r s : LgwReg)
    → all_ascend bs ≡ true
    → all_apart bs ≡ true
    → i ≢ j
    → get_elem? (flat bs) i ≡ some r
    → get_elem? (flat bs) j ≡ some s
    → AreApart r s
unfolding all_ascend all_apart flat
flat-AreApart [] i j r s a h n e f = absurd (cc e)
flat-AreApart (b ∷ bs) i j r s a h n e f =
    let (here, rest) = and_split (ascends (8 * b.from) (8 * b.below) b.regs) (all_ascend bs) a in
    let (away, others) = and_split (is_apart b bs) (all_apart bs) h in
    let inside = λ (k : ℕ) (t : LgwReg) (g : get_elem? b.regs k ≡ some t).
      ascends-Within (8 * b.from) (8 * b.below) b.regs k t here g in
    elim (get_elem?-append b.regs (flat bs) i r e) [
      | inl e' ↦ elim (get_elem?-append b.regs (flat bs) j s f) [
        | inl f' ↦ ascends-AreApart (8 * b.from) (8 * b.below) b.regs i j r s here n e' f'
        | inr (k, p, f') ↦ is_apart-AreApart b bs r s k away rest (inside i r e') f'
      ]
      | inr (k, p, e') ↦ elim (get_elem?-append b.regs (flat bs) j s f) [
        | inl f' ↦ apart_comm s r (is_apart-AreApart b bs s r k away rest (inside j s f') e')
        | inr (l, q, f') ↦
            flat-AreApart bs k l r s rest others
              (λ (t : k ≡ l). n (p ∙ ap (λ (m : ℕ). length b.regs + m) t ∙ sym q)) e' f'
      ]
    ]

flat_sound :
    (bs : List Block) (i : ℕ) (r : LgwReg)
    → all_ascend bs ≡ true
    → get_elem? (flat bs) i ≡ some r
    → is_sound r ≡ true
unfolding all_ascend flat
flat_sound [] i r a e = absurd (cc e)
flat_sound (b ∷ bs) i r a e =
    let (here, rest) = and_split (ascends (8 * b.from) (8 * b.below) b.regs) (all_ascend bs) a in
    elim (get_elem?-append b.regs (flat bs) i r e) [
      | inl f ↦ (ascends-Within (8 * b.from) (8 * b.below) b.regs i r here f).sound
      | inr (k, p, f) ↦ flat_sound bs k r rest f
    ]

get_elem?-get_or {ℓ} :
    {A : Type ℓ} (xs ys : List A) (i : ℕ) (d : A)
    → i < length xs
    → get_elem? xs i ≡ some (get_or (xs ++ ys) i d)
get_elem?-get_or [] ys i d h = absurd (omega arith)
get_elem?-get_or (x ∷ xs) ys zero d h = refl
get_elem?-get_or (x ∷ xs) ys (suc i) d h = get_elem?-get_or xs ys i d (omega arith)

reg_at_lem : (id : ℕ) → id < lgw_totalregs → get_elem? (flat reg_blocks) id ≡ some (reg_at id)
unfolding reg_at loregs
reg_at_lem id h = get_elem?-get_or (flat reg_blocks) _ id _ (omega (arith, h, loregs_length))

sound-parts :
    (r : LgwReg)
    → is_sound r ≡ true
    → (1 ≤ r.leng) × (r.offs + r.leng ≤ 8) × (r.addr < 0x8000) × (is_value r r.dflt ≡ true)
unfolding is_sound
sound-parts r h =
    let bits = leb 1 r.leng && leb (r.offs + r.leng) 8 in
    let (fits, place) = and_split bits (ltb r.addr 0x8000 && is_value r r.dflt) h in
    let (one, byte) = and_split (leb 1 r.leng) (leb (r.offs + r.leng) 8) fits in
    let (addr, value) = and_split (ltb r.addr 0x8000) (is_value r r.dflt) place in
    (leb→le 1 r.leng one, leb→le (r.offs + r.leng) 8 byte, ltb→lt r.addr 0x8000 addr, value)

pub reg_at_sound :
    (id : ℕ)
    → id < lgw_totalregs
    → (1 ≤ (reg_at id).leng)
      × ((reg_at id).offs + (reg_at id).leng ≤ 8)
      × ((reg_at id).addr < 0x8000)
      × (is_value (reg_at id) (reg_at id).dflt ≡ true)
reg_at_sound id h =
    sound-parts (reg_at id)
      (flat_sound reg_blocks id (reg_at id) reg_blocks-ascend (reg_at_lem id h))

-- Each register has a bit, lies within a byte, at an address of 15 bits, and has a default value that fits it; and two registers have no bit of
-- the chip in common.
pub reg_at-AreApart :
    (i j : ℕ)
    → i < lgw_totalregs
    → j < lgw_totalregs
    → i ≢ j
    → ((1 ≤ (reg_at i).leng)
        × ((reg_at i).offs + (reg_at i).leng ≤ 8)
        × ((reg_at i).addr < 0x8000)
        × (is_value (reg_at i) (reg_at i).dflt ≡ true))
      × AreApart (reg_at i) (reg_at j)
reg_at-AreApart i j hi hj n = (
  reg_at_sound i hi,
  flat-AreApart reg_blocks i j (reg_at i) (reg_at j) reg_blocks-ascend reg_blocks-apart n
      (reg_at_lem i hi) (reg_at_lem j hj),
)
