-- ===== src/Hal/Merge/Remove.antt =====
-- libloragw/src/loragw_hal.c, `remove_pkt`: what the array holds afterwards.

use mathlib.Core.List.{Perm, Mem, mem-cons_self, mem-cons_of_mem}
use meshbeacon_uplink.Prelude.{
  ℕ, zero, suc, ◌-◌, ◌<◌, ◌≡◌, ◌≢◌, refl, sym, ap, subst, ◌∙◌, true, List, [], ◌∷◌, ltb, ◌==◌,
  length, take, set, inl, inr, arith, Bool-cases, length-set, take-set_beyond, swap_remove_perm,
  get_or-take, get_or-set_self, get_or-set_ne, length-perm, length-take,
}
use meshbeacon_uplink.Hal.RxPkt.{RxPkt}
use meshbeacon_uplink.Hal.Merge.{no_pkt, pkt_at, remove_pkt, remove_or_keep}

-- Without the case of the last packet, for which the write does not show.
pub remove_or_keep-eq :
    (ps : List RxPkt) (i : ℕ)
    → i < length ps
    → remove_or_keep ps i ≡ take (length ps - 1) (set ps i (pkt_at ps (length ps - 1)))
unfolding remove_pkt
remove_or_keep-eq ps i h =
    let in_range : ltb i (length ps) ≡ true = ground arith in
    elim (Bool-cases (i == length ps - 1)) [
      | inl e ↦
          rw (in_range, e)
            (sym (take-set_beyond (length ps - 1) i ps (pkt_at ps (length ps - 1)) (ground arith)))
      | inr e ↦ rw (in_range, e) refl
    ]

pub remove_or_keep-perm :
    (ps : List RxPkt) (i : ℕ) → i < length ps → Perm ps (pkt_at ps i ∷ remove_or_keep ps i)
remove_or_keep-perm [] i h = elim h [ ]
remove_or_keep-perm (p ∷ ps) i h =
    let whole : take (suc (length ps)) (p ∷ ps) ≡ p ∷ ps = ap (◌∷◌ p) (take_all ps) in
    let last : length (p ∷ ps) - 1 ≡ length ps = omega arith in
    subst (λ rest. Perm (p ∷ ps) (pkt_at (p ∷ ps) i ∷ rest))
      (sym (
        remove_or_keep-eq (p ∷ ps) i h
        ∙ ap (λ n. take n (set (p ∷ ps) i (pkt_at (p ∷ ps) n))) last))
      (subst
        (λ all.
          Perm all
            (pkt_at (p ∷ ps) i ∷ take (length ps) (set (p ∷ ps) i (pkt_at (p ∷ ps) (length ps)))))
        whole (swap_remove_perm (length ps) i (p ∷ ps) no_pkt (omega arith) (omega arith)))
  where
    take_all : (xs : List RxPkt) → take (length xs) xs ≡ xs
    take_all [] = refl
    take_all (x ∷ xs) = ap (◌∷◌ x) (take_all xs)

pub length-remove_or_keep :
    (ps : List RxPkt) (i : ℕ) → i < length ps → length ps ≡ suc (length (remove_or_keep ps i))
length-remove_or_keep ps i h = length-perm (remove_or_keep-perm ps i h)

pub mem-pkt_at : (ps : List RxPkt) (i : ℕ) → i < length ps → Mem (pkt_at ps i) ps
mem-pkt_at [] i h = elim h [ ]
mem-pkt_at (p ∷ ps) zero h = mem-cons_self
mem-pkt_at (p ∷ ps) (suc i) h = mem-cons_of_mem p (mem-pkt_at ps i (omega arith))

-- A packet at another place is still there.
pub remove_or_keep-mem :
    (ps : List RxPkt) (i k : ℕ)
    → i < length ps
    → k < length ps
    → i ≢ k
    → Mem (pkt_at ps k) (remove_or_keep ps i)
remove_or_keep-mem ps i k hi hk ne =
    subst (λ rest. Mem (pkt_at ps k) rest) (sym (remove_or_keep-eq ps i hi))
      (elim (Bool-cases (k == length ps - 1)) [
        | inl e ↦
            there i (ne-lt (ground arith))
              (get_or-set_self ps i _ no_pkt hi ∙ ap (pkt_at ps) (sym (ground arith)))
        | inr e ↦ there k (ground arith) (get_or-set_ne ps i k _ no_pkt ne)
      ])
  where
    ne-lt : k ≡ length ps - 1 → i < length ps - 1
    ne-lt last = omega (arith, ne)

    left : List RxPkt
    left = set ps i (pkt_at ps (length ps - 1))

    there :
        (a : ℕ)
        → a < length ps - 1
        → pkt_at left a ≡ pkt_at ps k
        → Mem (pkt_at ps k) (take (length ps - 1) left)
    there a l same =
        let short =
          length-take (length ps - 1) left
            (omega (arith, length-set ps i (pkt_at ps (length ps - 1)))) in
        subst (λ p. Mem p (take (length ps - 1) left))
          (get_or-take (length ps - 1) a left no_pkt l ∙ same)
          (mem-pkt_at (take (length ps - 1) left) a (omega (arith, short)))
