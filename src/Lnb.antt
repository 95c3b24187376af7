-- ===== src/Lnb.antt =====
-- src/input/dvb/delivery/Lnb.{h,cpp}: the frequency behind the converter of a dish. All frequencies
-- are in kHz, as `uint32_t`.
use satpi.Base.{ℕ, ◌-◌, ◌*◌, Bool, true, false, not, ◌&&◌, if◌then◌else◌, ◌==◌, ltb, leb, u32}

pub data Polarization : Type 0 where
  horizontal vertical circular_left circular_right : Polarization

pub data LnbType : Type 0 where
  universal standard user_defined : LnbType

pub record Lnb : Type 0 where
  pub lnb_type : LnbType
  pub switchlof : ℕ
  pub lof_low : ℕ
  pub lof_high : ℕ

abbrev pub new_lnb : Lnb
new_lnb = record {
  lnb_type = universal;
  switchlof = 11700 * 1000;
  lof_low = 9750 * 1000;
  lof_high = 10600 * 1000;
}

abbrev pub is_vertical : Polarization → Bool
is_vertical vertical = true
is_vertical _ = false

abbrev pub is_horizontal : Polarization → Bool
is_horizontal horizontal = true
is_horizontal _ = false

-- `std::abs` of the difference of two numbers as `long`.
abbrev pub distance : ℕ → ℕ → ℕ
distance a b = if leb b a then a - b else b - a

-- The intermediate frequency, and whether it is that of the high band; `hiband` is what the caller
-- set it to.
unfoldable pub get_intermediate_frequency : Lnb → ℕ → Bool → Polarization → ℕ × Bool
get_intermediate_frequency l freq hiband pol =
    if ltb 0 l.lof_high && not (l.lof_high == l.lof_low)
    then if ltb 0 l.switchlof
      then (let hiband' = if leb l.switchlof freq then true else hiband in
          (u32 (distance freq (if hiband' then l.lof_high else l.lof_low)), hiband'))
      else (u32 (distance freq (if is_vertical pol then l.lof_low else l.lof_high)), hiband)
    else (u32 (distance freq l.lof_low), hiband)

unfoldable pub translate_polarization_to_char : Polarization → ℕ
translate_polarization_to_char horizontal = b'h'
translate_polarization_to_char vertical = b'v'
translate_polarization_to_char circular_left = b'l'
translate_polarization_to_char circular_right = b'r'
