-- ===== src/Reg/Sample.antt =====
-- A memory that is a function, for the examples: bytes that are put at an address and behind it.
use meshbeacon_uplink.Prelude.{
  ℕ, ◌+◌, ◌-◌, ◌<◌, ◌≤◌, ◌≡◌, ◌⊎◌, ◌&&◌, true, false, List, leb, ltb, if◌then◌else◌, length, get_or,
  arith, ap, ◌∙◌, if_true, if_false,
}

abbrev pub store : (ℕ → ℕ) → ℕ → List ℕ → ℕ → ℕ
store s addr bytes a =
    if leb addr a && ltb a (addr + length bytes) then get_or bytes (a - addr) 0 else s a

pub store-inside :
    (s : ℕ → ℕ) (addr : ℕ) (bytes : List ℕ) (i : ℕ)
    → i < length bytes
    → store s addr bytes (addr + i) ≡ get_or bytes i 0
store-inside s addr bytes i l =
    let here : (leb addr (addr + i) && ltb (addr + i) (addr + length bytes)) ≡ true =
      ground arith in
    let index : addr + i - addr ≡ i = omega arith in
    if_true _ _ _ here ∙ ap (λ k. get_or bytes k 0) index

pub store-outside :
    (s : ℕ → ℕ) (addr : ℕ) (bytes : List ℕ) (a : ℕ)
    → (a < addr) ⊎ (addr + length bytes ≤ a)
    → store s addr bytes a ≡ s a
store-outside s addr bytes a away =
    let off : (leb addr a && ltb a (addr + length bytes)) ≡ false = ground (arith, away) in
    if_false _ _ _ off
