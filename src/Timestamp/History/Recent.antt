-- ===== src/Timestamp/History/Recent.antt =====
-- The ring seen as the list of its counters, the newest first.
use meshbeacon_uplink.Prelude.{
  ℕ, zero, suc, ◌+◌, ◌-◌, ◌%◌, ◌≤◌, ◌<◌, ◌≡◌, ◌≢◌, refl, sym, ap, ap₂, ◌∙◌, true, false, not, ◌||◌,
  List, [], ◌∷◌, ltb, ◌==◌, if◌then◌else◌, Bool-cases, ltb→lt, inl, inr, arith, length, length-set,
  get_or, set, take, get_or-set_self, get_or-set_ne,
}
use meshbeacon_uplink.Timestamp.History.{PpsHistory, next_idx, history_save}

pub record IsValid (h : PpsHistory) : Type 0 where
  pub sized : length h.history ≡ 16
  pub inside : h.idx < 16
  pub fits : h.size ≤ 16
  pub fresh : h.size ≡ 0 → h.idx ≡ 0

-- The counter saved `k` places before the last one.
abbrev pub nth_back : PpsHistory → ℕ → ℕ
nth_back h k = get_or h.history ((h.idx + 16 - k) % 16) 0

abbrev tabulate : ℕ → (ℕ → ℕ) → List ℕ
tabulate zero f = []
tabulate (suc n) f = f 0 ∷ tabulate n (λ k. f (suc k))

tabulate-ext : (n : ℕ) (f g : ℕ → ℕ) → ((k : ℕ) → k < n → f k ≡ g k) → tabulate n f ≡ tabulate n g
tabulate-ext zero f g h = refl
tabulate-ext (suc n) f g h =
    ap₂ ◌∷◌ (h 0 (omega arith)) (tabulate-ext n _ _ (λ k l. h (suc k) (omega arith)))

take-tabulate : (n m : ℕ) (f : ℕ → ℕ) → n ≤ m → take n (tabulate m f) ≡ tabulate n f
take-tabulate zero m f h = refl
take-tabulate (suc n) zero f h = absurd (omega arith)
take-tabulate (suc n) (suc m) f h = ap (◌∷◌ (f 0)) (take-tabulate n m _ (omega arith))

take-tabulate_all : (n m : ℕ) (f : ℕ → ℕ) → m ≤ n → take n (tabulate m f) ≡ tabulate m f
take-tabulate_all zero zero f h = refl
take-tabulate_all zero (suc m) f h = absurd (omega arith)
take-tabulate_all (suc n) zero f h = refl
take-tabulate_all (suc n) (suc m) f h = ap (◌∷◌ (f 0)) (take-tabulate_all n m _ (omega arith))

-- The counters in the ring, the newest first.
abbrev pub recent : PpsHistory → List ℕ
recent h = tabulate h.size (nth_back h)

-- Saving in the abstract: a counter that differs from the newest goes in front, and 16 are kept.
pub push_recent : ℕ → List ℕ → List ℕ
push_recent x [] = x ∷ []
push_recent x (y ∷ ys) = if x == y then y ∷ ys else take 16 (x ∷ y ∷ ys)

tabulate-grow :
    (n x : ℕ) (f g : ℕ → ℕ)
    → n ≤ 16
    → f 0 ≡ x
    → ((k : ℕ) → k < 15 → f (suc k) ≡ g k)
    → tabulate (if ltb n 16 then n + 1 else n) f ≡ take 16 (x ∷ tabulate n g)
tabulate-grow n x f g fits first rest = elim (Bool-cases (ltb n 16)) [
  | inl room ↦
      let small = ltb→lt n 16 room in
      let grown : n + 1 ≡ suc n = omega arith in
      rw (room, grown, first, take-tabulate_all 15 n g (omega arith))
        (ap (◌∷◌ x) (tabulate-ext n _ g (λ k l. rest k (omega arith))))
  | inr full ↦
      let whole : n ≡ 16 = ground arith in
      let shown : n ≡ suc 15 = whole in
      rw full (
        ap (λ m. tabulate m f) shown
        ∙ ap₂ ◌∷◌ first (tabulate-ext 15 _ g rest)
        ∙ ap (◌∷◌ x) (sym (take-tabulate 15 n g (omega arith))))
]

push_recent_none : (x n : ℕ) (f : ℕ → ℕ) → n ≡ 0 → push_recent x (tabulate n f) ≡ x ∷ []
unfolding push_recent
push_recent_none x zero f e = refl
push_recent_none x (suc n) f e = absurd (omega arith)

push_recent_same :
    (x n : ℕ) (f : ℕ → ℕ) → 0 < n → (x == f 0) ≡ true → push_recent x (tabulate n f) ≡ tabulate n f
unfolding push_recent
push_recent_same x zero f h e = absurd (omega arith)
push_recent_same x (suc n) f h e = rw e

push_recent_new :
    (x n : ℕ) (f : ℕ → ℕ)
    → 0 < n
    → (x == f 0) ≡ false
    → push_recent x (tabulate n f) ≡ take 16 (x ∷ tabulate n f)
unfolding push_recent
push_recent_new x zero f h e = absurd (omega arith)
push_recent_new x (suc n) f h e = rw e

module _ (h : PpsHistory) (x : ℕ) (v : IsValid h) where
  abbrev saved : PpsHistory
  saved = record {
    history = set h.history (next_idx h) x;
    idx = next_idx h;
    size = if ltb h.size 16 then h.size + 1 else h.size;
  }

  next_idx_bound : next_idx h < 16
  unfolding next_idx
  next_idx_bound = ground (arith, v.inside)

  next_idx-eq : 0 < h.size → next_idx h ≡ (h.idx + 1) % 16
  unfolding next_idx
  next_idx-eq some_saved = ground (arith, v.inside)

  saved-newest : nth_back saved 0 ≡ x
  saved-newest =
      let same : (next_idx h + 16 - 0) % 16 ≡ next_idx h = omega (arith, next_idx_bound) in
      rw same (get_or-set_self h.history (next_idx h) x 0 (omega (arith, next_idx_bound, v.sized)))

  saved-older : (k : ℕ) → 0 < h.size → k < 15 → nth_back saved (suc k) ≡ nth_back h k
  saved-older k some_saved l =
      let same : (next_idx h + 16 - suc k) % 16 ≡ (h.idx + 16 - k) % 16 =
        omega (arith, next_idx-eq some_saved, v.inside) in
      let other : next_idx h ≢ (h.idx + 16 - k) % 16 =
        omega (arith, next_idx-eq some_saved, v.inside) in
      rw same (get_or-set_ne h.history (next_idx h) ((h.idx + 16 - k) % 16) x 0 other)

  saved-IsValid : IsValid saved
  saved-IsValid = record {
    sized = length-set h.history (next_idx h) x ∙ v.sized;
    inside = next_idx_bound;
    fits = ground (arith, v.fits);
    fresh = λ e. absurd (ground (arith, e));
  }

  saved-recent : 0 < h.size → recent saved ≡ take 16 (x ∷ recent h)
  saved-recent some_saved =
      tabulate-grow h.size x (nth_back saved) (nth_back h) v.fits saved-newest
        (λ k below. saved-older k some_saved below)

  saved-first : h.size ≡ 0 → recent saved ≡ x ∷ []
  saved-first none_saved =
      let one : (if ltb h.size 16 then h.size + 1 else h.size) ≡ 1 = ground arith in
      ap (λ n. tabulate n (nth_back saved)) one ∙ ap (λ y. y ∷ []) saved-newest

  newest : nth_back h 0 ≡ get_or h.history h.idx 0
  newest = let same : (h.idx + 16 - 0) % 16 ≡ h.idx = omega (arith, v.inside) in rw same

-- Saving keeps the ring valid, and the ring then shows what saving in the abstract gives: the new counter
-- in front of those before it, no counter twice in a row, and no more than the last 16.
pub history_save-recent :
    (h : PpsHistory) (x : ℕ)
    → IsValid h
    → IsValid (history_save h x) × (recent (history_save h x) ≡ push_recent x (recent h))
unfolding history_save
history_save-recent h x v = elim (Bool-cases (h.size == 0)) [
  | inl e ↦
      let none_saved : h.size ≡ 0 = ground arith in
      let writes : (not (x == get_or h.history h.idx 0) || h.size == 0) ≡ true = ground arith in
      rw writes (
        saved-IsValid h x v,
        saved-first h x v none_saved ∙ sym (push_recent_none x h.size (nth_back h) none_saved),
      )
  | inr e ↦
      let some_saved : 0 < h.size = ground arith in
      elim (Bool-cases (x == get_or h.history h.idx 0)) [
        | inl same ↦
            let keeps : (not (x == get_or h.history h.idx 0) || h.size == 0) ≡ false =
              ground arith in
            rw keeps
              (v, sym (push_recent_same x h.size (nth_back h) some_saved (rw (newest h x v) same)))
        | inr new ↦
            let writes : (not (x == get_or h.history h.idx 0) || h.size == 0) ≡ true =
              ground arith in
            rw writes (
              saved-IsValid h x v,
              saved-recent h x v some_saved
                  ∙ sym (push_recent_new x h.size (nth_back h) some_saved (rw (newest h x v) new)),
            )
      ]
]
