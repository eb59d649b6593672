-- ===== src/Hal/Config/Valid.antt =====
-- libloragw/src/loragw_hal.c: what the checks of the functions `lgw_..._setconf` are to ensure.
use meshbeacon_uplink.Prelude.{
  ℕ, zero, suc, ◌+◌, ◌<◌, ◌≤◌, ◌≡◌, refl, ap, ◌∙◌, true, ◌||◌, not, List, [], ◌∷◌, leb, ltb, length,
  set, get_or, inl, inr, arith, Bool-cases, if_split, ◌==◌, All, All-set, length-set,
  length-replicate, get_or-set_self,
}
use meshbeacon_uplink.Prelude.Int.{pos_part, neg_part}
use meshbeacon_uplink.Hal.TimeOnAir.{is_lora_bw, is_lora_dr}
use meshbeacon_uplink.Hal.Config.Types.{
  ConfBoard, ConfRxrf, ConfRxif, TxGainLut, ConfSx1261, Context, path_size,
}
use meshbeacon_uplink.Hal.Config.{
  Outcome, returns, fault, strncpy, copy_path, is_com_type, is_radio_type, lgw_board_setconf,
  lgw_rxrf_setconf, is_fsk_bw, is_fsk_dr,
}

-- An enabled radio is of a known type, with a frequency in its range.
pub record IsRxrf (r : ConfRxrf) : Type 0 where
  pub type : r.enable ≡ true → is_radio_type r.type ≡ true
  pub lowest : r.enable ≡ true → 100000000 ≤ r.freq_hz
  pub highest : r.enable ≡ true → r.freq_hz ≤ 1000000000

-- An enabled channel is on one of the radios, and at least 62.5 kHz from the ends of its band.
pub record IsRxif (i : ConfRxif) : Type 0 where
  pub rf_chain : i.enable ≡ true → i.rf_chain < 2
  pub in_band : i.enable ≡ true → pos_part i.freq_hz + neg_part i.freq_hz + 62500 ≤ 800000

pub record IsLut (l : TxGainLut) : Type 0 where
  pub entries : length l.lut ≡ 16
  pub least : 1 ≤ l.size
  pub most : l.size ≤ 16

-- A path ends in its array.
pub record IsPath (p : List ℕ) : Type 0 where
  pub bytes : length p ≡ 64
  pub ends : get_or p 63 1 ≡ 0

pub record IsBoard (b : ConfBoard) : Type 0 where
  pub com_type : is_com_type b.com_type ≡ true
  pub com_path : IsPath b.com_path

pub record IsSx1261 (x : ConfSx1261) : Type 0 where
  pub spi_path : IsPath x.spi_path
  pub channels : length x.lbt_conf.channels ≡ 16

-- An array of `n` entries that are in order.
pub record IsArray {ℓ} {A : Type ℓ} (P : A → Type 0) (n : ℕ) (xs : List A) : Type ℓ where
  pub entries : length xs ≡ n
  pub each : All P xs

abbrev pub IsService : ConfRxif → Type 0
IsService i = (is_lora_bw i.bandwidth ≡ true) × (is_lora_dr i.datarate ≡ true)

abbrev pub IsFsk : ConfRxif → Type 0
IsFsk i = (is_fsk_bw i.bandwidth ≡ true) × (is_fsk_dr i.datarate ≡ true)

pub record IsValid (c : Context) : Type 0 where
  pub board : IsBoard c.board_cfg
  pub radios : IsArray IsRxrf 2 c.rf_chain_cfg
  pub chains : IsArray IsRxif 10 c.if_chain_cfg
  pub service : IsService c.lora_service_cfg
  pub fsk : IsFsk c.fsk_cfg
  pub tables : IsArray IsLut 2 c.tx_gain_lut
  pub sx1261 : IsSx1261 c.sx1261_cfg

pub IsArray-set {ℓ} :
    {A : Type ℓ} (P : A → Type 0) (n : ℕ) (xs : List A) (i : ℕ) (x : A)
    → IsArray P n xs
    → P x
    → IsArray P n (set xs i x)
IsArray-set P n xs i x a p = record {
  entries = length-set xs i x ∙ a.entries;
  each = All-set P xs i x a.each p;
}

-- Of the context that a call leaves, if it returns.
abbrev pub OnReturn : (Context → Type 0) → Outcome → Type 0
OnReturn P (returns status c) = P c
OnReturn P fault = Unit

length-strncpy : (n : ℕ) (src : List ℕ) → length (strncpy n src) ≡ n
unfolding strncpy
length-strncpy zero src = refl
length-strncpy (suc n) [] = ap suc (length-replicate n 0)
length-strncpy (suc n) (c ∷ cs) = elim (Bool-cases (c == 0)) [
  | inl e ↦ rw e (ap suc (length-replicate n 0))
  | inr e ↦ rw e (ap suc (length-strncpy n cs))
]

pub copy_path-IsPath : (src : List ℕ) → IsPath (copy_path src)
unfolding copy_path
copy_path-IsPath src = record {
  bytes = length-set (strncpy path_size src) 63 0 ∙ length-strncpy path_size src;
  ends =
      get_or-set_self (strncpy path_size src) 63 0 1 (omega (arith, length-strncpy path_size src));
}

pub lgw_board_setconf-IsValid :
    (c : Context) (conf : ConfBoard) → IsValid c → OnReturn IsValid (lgw_board_setconf c conf)
unfolding lgw_board_setconf
lgw_board_setconf-IsValid c conf v =
    if_split (OnReturn IsValid) (c.is_started || not (is_com_type conf.com_type)) _ _ (λ e. v)
      (λ e. record {
        board = record { com_type = ground arith; com_path = copy_path-IsPath conf.com_path };
        radios = v.radios;
        chains = v.chains;
        service = v.service;
        fsk = v.fsk;
        tables = v.tables;
        sx1261 = v.sx1261;
      })

pub lgw_rxrf_setconf-IsValid :
    (c : Context) (rf_chain : ℕ) (conf : ConfRxrf)
    → IsValid c
    → OnReturn IsValid (lgw_rxrf_setconf c rf_chain conf)
unfolding lgw_rxrf_setconf
lgw_rxrf_setconf-IsValid c rf_chain conf v =
    if_split (OnReturn IsValid) c.is_started _ _ (λ e. v)
      (λ stopped.
        if_split (OnReturn IsValid) (not conf.enable) _ _ (λ e. v)
          (λ on.
            if_split (OnReturn IsValid) (leb 2 rf_chain || not (is_radio_type conf.type)) _ _
              (λ e. v)
              (λ good.
                if_split (OnReturn IsValid)
                  (ltb conf.freq_hz 100000000 || ltb 1000000000 conf.freq_hz) _ _ (λ e. v)
                  (λ within. record {
                    board = v.board;
                    radios = IsArray-set IsRxrf 2 c.rf_chain_cfg rf_chain conf v.radios (record {
                      type = λ _. ground arith;
                      lowest = λ _. ground arith;
                      highest = λ _. ground arith;
                    });
                    chains = v.chains;
                    service = v.service;
                    fsk = v.fsk;
                    tables = v.tables;
                    sx1261 = v.sx1261;
                  }))))
