-- ===== src/Hal/Merge/Choice.antt =====
-- libloragw/src/loragw_hal.c, `merge_packets`: which of two packets that are the same is kept.
use meshbeacon_uplink.Prelude.{
  ℕ, ◌+◌, ◌≤◌, ◌≡◌, refl, ap, ap₂, subst, true, ◌&&◌, List, [], ◌∷◌, leb, ◌==◌, if◌then◌else◌, take,
  inl, inr, ◌⊎◌, ◌∙◌, arith, Bool-cases, ==_iff, and_split,
}
use meshbeacon_uplink.Hal.RxPkt.{RxPkt, stat_crc_ok, stat_crc_bad}
use meshbeacon_uplink.Hal.Merge.{is_same_pkt, is_same_bytes, abs_diff, is_same_payload, drops_first}

-- A checksum before a fine timestamp.
abbrev pub quality : RxPkt → ℕ
quality p = (if p.status == stat_crc_ok then 2 else 0) + (if p.ftime_received then 1 else 0)

-- The checksum was read: the packet states whether it is right.
abbrev pub IsChecked : RxPkt → Type 0
IsChecked p = (p.status ≡ stat_crc_ok) ⊎ (p.status ≡ stat_crc_bad)

-- `q` can stand for `p`.
pub record Carries (p : RxPkt) (q : RxPkt) : Type 0 where
  pub if_chain : p.if_chain ≡ q.if_chain
  pub datarate : p.datarate ≡ q.datarate
  pub size : p.size ≡ q.size
  pub payload : take p.size p.payload ≡ take q.size q.payload
  pub quality : quality p ≤ quality q

pub Carries-refl : (p : RxPkt) → Carries p p
Carries-refl p = record {
  if_chain = refl;
  datarate = refl;
  size = refl;
  payload = refl;
  quality = omega arith;
}

pub Carries-trans : (p q r : RxPkt) → Carries p q → Carries q r → Carries p r
Carries-trans p q r a b = record {
  if_chain = a.if_chain ∙ b.if_chain;
  datarate = a.datarate ∙ b.datarate;
  size = a.size ∙ b.size;
  payload = a.payload ∙ b.payload;
  quality = omega (arith, a.quality, b.quality);
}

==_comm : (a b : ℕ) → (a == b) ≡ (b == a)
==_comm a b = ground arith

is_same_bytes-eq : (xs ys : List ℕ) → is_same_bytes xs ys ≡ true → xs ≡ ys
unfolding is_same_bytes
is_same_bytes-eq [] [] h = refl
is_same_bytes-eq [] (y ∷ ys) h = absurd (cc h)
is_same_bytes-eq (x ∷ xs) [] h = absurd (cc h)
is_same_bytes-eq (x ∷ xs) (y ∷ ys) h =
    let both = and_split (x == y) (is_same_bytes xs ys) h in
    ap₂ ◌∷◌ ((==_iff x y).0 both.0) (is_same_bytes-eq xs ys both.1)

is_same_bytes_comm : (xs ys : List ℕ) → is_same_bytes xs ys ≡ is_same_bytes ys xs
unfolding is_same_bytes
is_same_bytes_comm [] [] = refl
is_same_bytes_comm [] (y ∷ ys) = refl
is_same_bytes_comm (x ∷ xs) [] = refl
is_same_bytes_comm (x ∷ xs) (y ∷ ys) = ap₂ ◌&&◌ (==_comm x y) (is_same_bytes_comm xs ys)

abs_diff_comm : (a b : ℕ) → abs_diff a b ≡ abs_diff b a
unfolding abs_diff
abs_diff_comm a b = ground arith

-- What it takes for two packets to be the same.
record IsSame (p : RxPkt) (q : RxPkt) : Type 0 where
  near : leb (abs_diff p.count_us q.count_us) 24 ≡ true
  if_chain : (p.if_chain == q.if_chain) ≡ true
  datarate : (p.datarate == q.datarate) ≡ true
  size : (p.size == q.size) ≡ true
  payload : is_same_payload p q ≡ true

is_same_pkt-IsSame : (p q : RxPkt) → is_same_pkt p q ≡ true → IsSame p q
unfolding is_same_pkt
is_same_pkt-IsSame p q h =
    let near = leb (abs_diff p.count_us q.count_us) 24 in
    let chain = p.if_chain == q.if_chain in
    let rate = p.datarate == q.datarate in
    let sized = p.size == q.size in
    let a = and_split (near && chain && rate && sized) (is_same_payload p q) h in
    let b = and_split (near && chain && rate) sized a.0 in
    let c = and_split (near && chain) rate b.0 in
    let d = and_split near chain c.0 in
    record { near = d.0; if_chain = d.1; datarate = c.1; size = b.1; payload = a.1 }

-- The size, of which `memcmp` takes the one of the first packet, is the same.
IsSame-payload : (p q : RxPkt) → IsSame p q → take p.size p.payload ≡ take q.size q.payload
IsSame-payload p q s =
    is_same_bytes-eq (take p.size p.payload) (take p.size q.payload) s.payload
    ∙ ap (λ n. take n q.payload) ((==_iff p.size q.size).0 s.size)

pub is_same_pkt_comm : (p q : RxPkt) → is_same_pkt p q ≡ true → is_same_pkt q p ≡ true
unfolding is_same_pkt
is_same_pkt_comm p q h =
    let s = is_same_pkt-IsSame p q h in
    let sized : p.size ≡ q.size = (==_iff p.size q.size).0 s.size in
    let same : is_same_bytes (take q.size q.payload) (take q.size p.payload) ≡ true =
      subst (λ n. is_same_bytes (take n q.payload) (take n p.payload) ≡ true) sized
        (is_same_bytes_comm _ _ ∙ s.payload) in
    rw
      (
        abs_diff_comm q.count_us p.count_us,
        s.near,
        ==_comm q.if_chain p.if_chain,
        s.if_chain,
        ==_comm q.datarate p.datarate,
        s.datarate,
        ==_comm q.size p.size,
        s.size,
        same,
      )
      refl

-- Packets that are the same agree in what they carry.
pub is_same_pkt-Carries :
    (p q : RxPkt) → is_same_pkt p q ≡ true → quality p ≤ quality q → Carries p q
is_same_pkt-Carries p q h better =
    let s = is_same_pkt-IsSame p q h in
    record {
      if_chain = (==_iff p.if_chain q.if_chain).0 s.if_chain;
      datarate = (==_iff p.datarate q.datarate).0 s.datarate;
      size = (==_iff p.size q.size).0 s.size;
      payload = IsSame-payload p q s;
      quality = better;
    }

ftime_le : (p : RxPkt) (n : ℕ) → 1 ≤ n → (if p.ftime_received then 1 else 0) ≤ n
ftime_le p n h = elim (Bool-cases p.ftime_received) [
  | inl e ↦ rw e (omega arith)
  | inr e ↦ rw e (omega arith)
]

-- The packet dropped is of no better quality.
pub drops_first-quality :
    (p q : RxPkt)
    → IsChecked p
    → IsChecked q
    → if drops_first p q then quality p ≤ quality q else quality q ≤ quality p
unfolding drops_first
drops_first-quality p q (inl a) (inl b) =
    rw (a, b)
      (elim (Bool-cases p.ftime_received) [
        | inl e ↦ rw e (omega (arith, ftime_le q 1 (omega arith)))
        | inr e ↦ rw e (omega arith)
      ])
drops_first-quality p q (inl a) (inr b) = rw (a, b) (omega (arith, ftime_le q 1 (omega arith)))
drops_first-quality p q (inr a) (inl b) = rw (a, b) (omega (arith, ftime_le p 1 (omega arith)))
drops_first-quality p q (inr a) (inr b) =
    rw (a, b)
      (elim (Bool-cases p.ftime_received) [
        | inl e ↦ rw e (omega (arith, ftime_le q 1 (omega arith)))
        | inr e ↦ rw e (omega arith)
      ])
