-- ===== src/Diseqc/Tuned.antt =====
-- What a Unicable command of src/input/dvb/delivery/DiSEqcEN50494.cpp says, and how near it brings
-- the wanted transponder.
use satpi.Base.{
  ℕ, ◌+◌, ◌-◌, ◌*◌, ◌/◌, ◌%◌, ◌^◌, ◌<◌, ◌≤◌, ◌≡◌, refl, arith, Bool, false, ◌==◌, leb, some, List,
  get_or,
}
use satpi.Lnb.{Polarization, is_horizontal, new_lnb, get_intermediate_frequency}
use satpi.Diseqc.{tuning_en50494, command_en50494, bit}

-- How a receiver reads a command: the user band, the position, the polarization, the band and the
-- tuning word, as EN 50494 lays them out.
pub record Reading : Type 0 where
  pub user_band : ℕ
  pub position_b : Bool
  pub horizontal_pol : Bool
  pub high_band : Bool
  pub tuning : ℕ

abbrev pub read_en50494 : List ℕ → Reading
read_en50494 cmd =
    let data1 = get_or cmd 3 0 in
    record {
      user_band = data1 / 2 ^ 5;
      position_b = data1 / 2 ^ 4 % 2 == 1;
      horizontal_pol = data1 / 2 ^ 3 % 2 == 1;
      high_band = data1 / 2 ^ 2 % 2 == 1;
      tuning = data1 % 2 ^ 2 * 2 ^ 8 + get_or cmd 4 0;
    }

bits_read :
    (slot t : ℕ) (a b c : Bool)
    → slot < 8
    → t < 4
    → (((slot * 32 % 256 + bit a 16 + bit b 8 + bit c 4 + t) / 32) ≡ slot)
      × (((slot * 32 % 256 + bit a 16 + bit b 8 + bit c 4 + t) / 16 % 2 == 1) ≡ a)
      × (((slot * 32 % 256 + bit a 16 + bit b 8 + bit c 4 + t) / 8 % 2 == 1) ≡ b)
      × (((slot * 32 % 256 + bit a 16 + bit b 8 + bit c 4 + t) / 4 % 2 == 1) ≡ c)
      × (((slot * 32 % 256 + bit a 16 + bit b 8 + bit c 4 + t) % 4) ≡ t)
bits_read slot t a b c hs ht = ground arith

-- The receiver reads from a command what it was made for: the user band and the tuning word, if they
-- fit into their three and ten bits, the position, the polarization and the band.
pub read-command_en50494 :
    (ch_slot src : ℕ) (pol : Polarization) (hiband : Bool) (t : ℕ)
    → ch_slot < 8
    → t < 1024
    → read_en50494 (command_en50494 ch_slot src pol hiband t) ≡ record {
      user_band = ch_slot;
      position_b = leb 1 src;
      horizontal_pol = is_horizontal pol;
      high_band = hiband;
      tuning = t;
    }
unfolding command_en50494
read-command_en50494 ch_slot src pol hiband t hs ht =
    let (e1, e2, e3, e4, e5) =
      bits_read ch_slot (t / 2 ^ 8 % 4) (leb 1 src) (is_horizontal pol) hiband hs (omega arith) in
    let word : t / 2 ^ 8 % 4 * 2 ^ 8 + t % 2 ^ 8 ≡ t = omega arith in
    rw (e1, e2, e3, e4, e5, word) refl

universal_band :
    (freq : ℕ) (pol : Polarization)
    → 10700000 ≤ freq
    → freq ≤ 12750000
    → (950000 ≤ (get_intermediate_frequency new_lnb freq false pol).0)
      × ((get_intermediate_frequency new_lnb freq false pol).0 ≤ 2150000)
unfolding get_intermediate_frequency
universal_band freq pol lo hi = ground arith

near :
    (i ch_freq : ℕ)
    → 1396000 < i + 1000 * ch_freq
    → i + 1000 * ch_freq < 5492000
    → (t : ℕ) × (tuning_en50494 ch_freq i ≡ some t)
      × (t < 1024)
      × (4000 * (t + 350) ≤ i + 1000 * ch_freq + 4000)
      × (i + 1000 * ch_freq ≤ 4000 * (t + 350))
unfolding tuning_en50494
near i ch_freq lo hi =
    ((i + 1000 * ch_freq - 1396000) / 4000, ground arith, omega arith, omega arith, omega arith)

-- For a universal converter, a transponder from 10.7 to 12.75 GHz and a user band from 950 to 2150 MHz
-- there is a tuning word T, and it fits into ten bits. The 4 MHz * (T + 350) with which the receiver
-- brings the transponder down to the user band are not below the sum of the transponder's
-- intermediate frequency and the user band, and at most 4 MHz above it.
pub tuning_en50494_near :
    (freq ch_freq : ℕ) (pol : Polarization)
    → 10700000 ≤ freq
    → freq ≤ 12750000
    → 950 ≤ ch_freq
    → ch_freq ≤ 2150
    → let wanted = (get_intermediate_frequency new_lnb freq false pol).0 + 1000 * ch_freq in
      (t : ℕ) × (tuning_en50494 ch_freq (get_intermediate_frequency new_lnb freq false pol).0
        ≡ some t)
      × (t < 1024)
      × (4000 * (t + 350) ≤ wanted + 4000)
      × (wanted ≤ 4000 * (t + 350))
tuning_en50494_near freq ch_freq pol lo hi clo chi =
    let (a, b) = universal_band freq pol lo hi in
    near (get_intermediate_frequency new_lnb freq false pol).0 ch_freq (omega arith) (omega arith)
