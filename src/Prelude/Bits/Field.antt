-- ===== src/Prelude/Bits/Field.antt =====
-- The bits of a number from a position on, a given number of them: reading them and replacing them.
use Prim.Native.Nat.{ℕ, zero, suc, ◌+◌, ◌-◌, ◌*◌, ◌/◌, ◌%◌, ◌^◌, ◌≤◌, ◌<◌}
use mathlib.Core.Path.{◌≡◌, sym, ap, ◌∙◌}
use mathlib.Core.Logic.{◌⊎◌, inl, inr}
use native.Mathlib.Nat.{
  pow-suc, one-le-pow, div-div-eq-div-mul, mul-add-div_right, div-eq_of_lt, mod-lt,
  mul-add-mod_self_right, mod-eq_of_lt, div-add-mod', div-lt_iff_lt-mul, mul-pos,
}
use native.Mathlib.Omega.{arith}

pub pow-add : (a b : ℕ) → 2 ^ (a + b) ≡ 2 ^ a * 2 ^ b
pow-add zero b = let e : 0 + b ≡ b = omega arith in rw e (omega arith)
pow-add (suc a) b =
    let e : suc a + b ≡ suc (a + b) = omega arith in
    rw (e, pow-suc 2 (a + b), pow-add a b, pow-suc 2 a) (grind arith)

pub pow-pos : (a : ℕ) → 0 < 2 ^ a
pow-pos a = one-le-pow a 2 (omega arith)

unfoldable pub get_field : ℕ → ℕ → ℕ → ℕ
get_field o l b = b / 2 ^ o % 2 ^ l

unfoldable pub put_field : ℕ → ℕ → ℕ → ℕ → ℕ
put_field o l b v = (b / 2 ^ o / 2 ^ l * 2 ^ l + v) * 2 ^ o + b % 2 ^ o

put-div : (o l b v : ℕ) → put_field o l b v / 2 ^ o ≡ b / 2 ^ o / 2 ^ l * 2 ^ l + v
unfolding put_field
put-div o l b v =
    mul-add-div_right (pow-pos o) (b / 2 ^ o / 2 ^ l * 2 ^ l + v) (b % 2 ^ o)
    ∙ ap (λ (t : ℕ). b / 2 ^ o / 2 ^ l * 2 ^ l + v + t) (div-eq_of_lt (mod-lt b (pow-pos o)))
    ∙ omega arith

pub get-put : (o l b v : ℕ) → v < 2 ^ l → get_field o l (put_field o l b v) ≡ v
unfolding get_field
get-put o l b v h =
    ap (λ (t : ℕ). t % 2 ^ l) (put-div o l b v)
    ∙ mul-add-mod_self_right (b / 2 ^ o / 2 ^ l) (2 ^ l) v
    ∙ mod-eq_of_lt h

-- The bits above the field, and those below, stay.
put-above : (o l b v : ℕ) → v < 2 ^ l → put_field o l b v / 2 ^ o / 2 ^ l ≡ b / 2 ^ o / 2 ^ l
put-above o l b v h =
    ap (λ (t : ℕ). t / 2 ^ l) (put-div o l b v)
    ∙ mul-add-div_right (pow-pos l) (b / 2 ^ o / 2 ^ l) v
    ∙ ap (λ (t : ℕ). b / 2 ^ o / 2 ^ l + t) (div-eq_of_lt h)
    ∙ omega arith

-- Replacing a field below a position leaves a number below it.
pub put-lt : (o l p b v : ℕ) → o + l ≤ p → v < 2 ^ l → b < 2 ^ p → put_field o l b v < 2 ^ p
put-lt o l p b v fits h small =
    let split : 2 ^ p ≡ 2 ^ (p - (o + l)) * (2 ^ o * 2 ^ l) =
      (let e : p ≡ p - (o + l) + (o + l) = omega arith in ap (λ (t : ℕ). 2 ^ t) e)
      ∙ pow-add (p - (o + l)) (o + l)
      ∙ ap (λ (t : ℕ). 2 ^ (p - (o + l)) * t) (pow-add o l) in
    let parts = mul-pos (pow-pos o) (pow-pos l) in
    let same =
      sym (div-div-eq-div-mul (put_field o l b v) (2 ^ o) (2 ^ l))
      ∙ put-above o l b v h
      ∙ div-div-eq-div-mul b (2 ^ o) (2 ^ l) in
    let small' : b < 2 ^ (p - (o + l)) * (2 ^ o * 2 ^ l) = omega (arith, small, split) in
    let less = (div-lt_iff_lt-mul parts).1 small' in
    let less' : put_field o l b v / (2 ^ o * 2 ^ l) < 2 ^ (p - (o + l)) =
      omega (arith, less, same) in
    omega (arith, (div-lt_iff_lt-mul parts).0 less', split)

put-below : (o l b v : ℕ) → put_field o l b v % 2 ^ o ≡ b % 2 ^ o
unfolding put_field
put-below o l b v =
    mul-add-mod_self_right (b / 2 ^ o / 2 ^ l * 2 ^ l + v) (2 ^ o) (b % 2 ^ o)
    ∙ mod-eq_of_lt (mod-lt b (pow-pos o))

pub mod-mul : (b m n : ℕ) → 0 < m → 0 < n → b % (m * n) ≡ b / n % m * n + b % n
mod-mul b m n hm hn =
    let q = b / n / m in
    let r = b / n % m in
    let low = r * n + b % n in
    let split : b ≡ q * (m * n) + low =
      grind (arith, div-add-mod' b n, ap (λ (t : ℕ). t * n) (div-add-mod' (b / n) m)) in
    let next : (r + 1) * n ≤ m * n = grind (arith, mod-lt (b / n) hm) in
    let fits : low < m * n = grind (arith, next, mod-lt b hn) in
    ap (λ (t : ℕ). t % (m * n)) split ∙ mul-add-mod_self_right q (m * n) low ∙ mod-eq_of_lt fits

pub mod-div : (b m n : ℕ) → 0 < m → 0 < n → b % (m * n) / n ≡ b / n % m
mod-div b m n hm hn =
    ap (λ (t : ℕ). t / n) (mod-mul b m n hm hn)
    ∙ mul-add-div_right hn (b / n % m) (b % n)
    ∙ ap (λ (t : ℕ). b / n % m + t) (div-eq_of_lt (mod-lt b hn))
    ∙ omega arith

pub mod-mul-mod : (b m n : ℕ) → 0 < m → 0 < n → b % (m * n) % n ≡ b % n
mod-mul-mod b m n hm hn =
    ap (λ (t : ℕ). t % n) (mod-mul b m n hm hn)
    ∙ mul-add-mod_self_right (b / n % m) n (b % n)
    ∙ mod-eq_of_lt (mod-lt b hn)

-- A field is a part of the bits below any position above it, and of those above any position below it.
pub get-low : (o l p b : ℕ) → o + l ≤ p → get_field o l (b % 2 ^ p) ≡ get_field o l b
unfolding get_field
get-low o l p b h =
    let split : 2 ^ p ≡ 2 ^ (p - o) * 2 ^ o =
      ap (λ (t : ℕ). 2 ^ t) (omega arith) ∙ pow-add (p - o) o in
    let split' : 2 ^ (p - o) ≡ 2 ^ (p - o - l) * 2 ^ l =
      ap (λ (t : ℕ). 2 ^ t) (omega arith) ∙ pow-add (p - o - l) l in
    ap (λ (t : ℕ). b % t / 2 ^ o % 2 ^ l) split
    ∙ ap (λ (t : ℕ). t % 2 ^ l) (mod-div b (2 ^ (p - o)) (2 ^ o) (pow-pos (p - o)) (pow-pos o))
    ∙ ap (λ (t : ℕ). b / 2 ^ o % t % 2 ^ l) split'
    ∙ mod-mul-mod (b / 2 ^ o) (2 ^ (p - o - l)) (2 ^ l) (pow-pos (p - o - l)) (pow-pos l)

get-high : (o l p b : ℕ) → p ≤ o → get_field o l b ≡ get_field (o - p) l (b / 2 ^ p)
unfolding get_field
get-high o l p b h =
    let split : 2 ^ o ≡ 2 ^ p * 2 ^ (o - p) =
      ap (λ (t : ℕ). 2 ^ t) (omega arith) ∙ pow-add p (o - p) in
    ap (λ (t : ℕ). b / t % 2 ^ l) split
    ∙ ap (λ (t : ℕ). t % 2 ^ l) (sym (div-div-eq-div-mul b (2 ^ p) (2 ^ (o - p))))

-- Another field, which does not meet the one put.
pub get-put_other :
    (o l o' l' b v : ℕ)
    → v < 2 ^ l
    → (o' + l' ≤ o) ⊎ (o + l ≤ o')
    → get_field o' l' (put_field o l b v) ≡ get_field o' l' b
get-put_other o l o' l' b v h (inl below) =
    sym (get-low o' l' o (put_field o l b v) below)
    ∙ ap (get_field o' l') (put-below o l b v)
    ∙ get-low o' l' o b below
get-put_other o l o' l' b v h (inr above) =
    let high = λ (c : ℕ).
      get-high o' l' o c (omega arith) ∙ get-high (o' - o) l' l (c / 2 ^ o) (omega arith) in
    high (put_field o l b v) ∙ ap (get_field (o' - o - l) l') (put-above o l b v h) ∙ sym (high b)
