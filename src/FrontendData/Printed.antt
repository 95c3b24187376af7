-- ===== src/FrontendData/Printed.antt =====
-- The words of a request and those that a frontend describes itself with.
use satpi.Base.{◌≡◌, ◌≢◌, refl, if◌then◌else◌, Bool, true, false, [], ◌∷◌}
use satpi.Text.Search.{text_eq, not_empty}
use satpi.Lnb
use satpi.Lnb.{Polarization, horizontal, vertical, circular_left, circular_right}
use satpi.Params.{InputSystem, msys_of}
use satpi.FrontendData.Words.{
  Fec, Modulation, Pilot, Rolloff, Transmission, Guard, fec_none, fec_1_2, fec_2_3, fec_2_5,
  fec_3_4, fec_3_5, fec_4_5, fec_5_6, fec_6_7, fec_7_8, fec_8_9, fec_9_10, fec_auto, qpsk, dqpsk,
  psk_8, apsk_16, apsk_32, qam_16, qam_32, qam_64, qam_128, qam_256, qam_auto, pilot_on, pilot_off,
  pilot_auto, rolloff_35, rolloff_25, rolloff_20, rolloff_auto, mode_1k, mode_2k, mode_4k, mode_8k,
  mode_16k, mode_32k, mode_c1, mode_c3780, mode_auto, guard_1_4, guard_1_8, guard_1_16, guard_1_32,
  guard_1_128, guard_19_128, guard_19_256, guard_auto, read_fec, fec_to_string, read_modtype,
  modtype_to_string, read_pilot, pilot_tone_to_string, read_rolloff, rolloff_to_string,
  read_transmission, transmode_to_string, read_guard, guardinter_to_string, read_polarization,
  delsys_to_string,
}

read_fec-fec_to_string :
    (old x : Fec)
    → read_fec old (fec_to_string x) ≡ (if not_empty (fec_to_string x) then x else old)
unfolding text_eq
read_fec-fec_to_string old fec_none = refl
read_fec-fec_to_string old fec_1_2 = refl
read_fec-fec_to_string old fec_2_3 = refl
read_fec-fec_to_string old fec_2_5 = refl
read_fec-fec_to_string old fec_3_4 = refl
read_fec-fec_to_string old fec_3_5 = refl
read_fec-fec_to_string old fec_4_5 = refl
read_fec-fec_to_string old fec_5_6 = refl
read_fec-fec_to_string old fec_6_7 = refl
read_fec-fec_to_string old fec_7_8 = refl
read_fec-fec_to_string old fec_8_9 = refl
read_fec-fec_to_string old fec_9_10 = refl
read_fec-fec_to_string old fec_auto = refl

read_modtype-modtype_to_string :
    (old : Modulation) (x : Modulation) → x ≢ qam_auto → read_modtype old (modtype_to_string x) ≡ x
unfolding text_eq
read_modtype-modtype_to_string old qpsk h = refl
read_modtype-modtype_to_string old dqpsk h = refl
read_modtype-modtype_to_string old psk_8 h = refl
read_modtype-modtype_to_string old apsk_16 h = refl
read_modtype-modtype_to_string old apsk_32 h = refl
read_modtype-modtype_to_string old qam_16 h = refl
read_modtype-modtype_to_string old qam_32 h = refl
read_modtype-modtype_to_string old qam_64 h = refl
read_modtype-modtype_to_string old qam_128 h = refl
read_modtype-modtype_to_string old qam_256 h = refl
read_modtype-modtype_to_string old qam_auto h = absurd (h refl)

read_pilot-pilot_tone_to_string :
    (old x : Pilot)
    → read_pilot old (pilot_tone_to_string x)
      ≡ (if not_empty (pilot_tone_to_string x) then x else old)
unfolding text_eq
read_pilot-pilot_tone_to_string old pilot_on = refl
read_pilot-pilot_tone_to_string old pilot_off = refl
read_pilot-pilot_tone_to_string old pilot_auto = refl

read_rolloff-rolloff_to_string :
    (old x : Rolloff)
    → read_rolloff old (rolloff_to_string x) ≡ (if not_empty (rolloff_to_string x) then x else old)
unfolding text_eq
read_rolloff-rolloff_to_string old rolloff_35 = refl
read_rolloff-rolloff_to_string old rolloff_25 = refl
read_rolloff-rolloff_to_string old rolloff_20 = refl
read_rolloff-rolloff_to_string old rolloff_auto = refl

read_transmission-transmode_to_string :
    (old x : Transmission)
    → x ≢ mode_c1
    → x ≢ mode_c3780
    → read_transmission old (transmode_to_string x)
      ≡ (if not_empty (transmode_to_string x) then x else old)
unfolding text_eq
read_transmission-transmode_to_string old mode_1k h k = refl
read_transmission-transmode_to_string old mode_2k h k = refl
read_transmission-transmode_to_string old mode_4k h k = refl
read_transmission-transmode_to_string old mode_8k h k = refl
read_transmission-transmode_to_string old mode_16k h k = refl
read_transmission-transmode_to_string old mode_32k h k = refl
read_transmission-transmode_to_string old mode_c1 h k = absurd (h refl)
read_transmission-transmode_to_string old mode_c3780 h k = absurd (k refl)
read_transmission-transmode_to_string old mode_auto h k = refl

read_guard-guardinter_to_string :
    (old x : Guard)
    → read_guard old (guardinter_to_string x)
      ≡ (if not_empty (guardinter_to_string x) then x else old)
unfolding text_eq
read_guard-guardinter_to_string old guard_1_4 = refl
read_guard-guardinter_to_string old guard_1_8 = refl
read_guard-guardinter_to_string old guard_1_16 = refl
read_guard-guardinter_to_string old guard_1_32 = refl
read_guard-guardinter_to_string old guard_1_128 = refl
read_guard-guardinter_to_string old guard_19_128 = refl
read_guard-guardinter_to_string old guard_19_256 = refl
read_guard-guardinter_to_string old guard_auto = refl

read_polarization-char :
    (old : Polarization) (x : Polarization)
    → read_polarization old (Lnb.translate_polarization_to_char x ∷ []) ≡ x
unfolding text_eq Lnb.translate_polarization_to_char
read_polarization-char old horizontal = refl
read_polarization-char old vertical = refl
read_polarization-char old circular_left = refl
read_polarization-char old circular_right = refl

-- The delivery systems with a word of their own that a request may use.
abbrev pub has_word : InputSystem → Bool
has_word InputSystem.dvbs2x = false
has_word InputSystem.childpipe = false
has_word InputSystem.iptv = false
has_word _ = true

msys_of-delsys_to_string : (x : InputSystem) → has_word x ≡ true → msys_of (delsys_to_string x) ≡ x
unfolding text_eq
msys_of-delsys_to_string InputSystem.undefined h = refl
msys_of-delsys_to_string InputSystem.dvbt h = refl
msys_of-delsys_to_string InputSystem.dvbs h = refl
msys_of-delsys_to_string InputSystem.dvbs2 h = refl
msys_of-delsys_to_string InputSystem.dvbs2x h = absurd (cc)
msys_of-delsys_to_string InputSystem.dvbt2 h = refl
msys_of-delsys_to_string InputSystem.dvbc h = refl
msys_of-delsys_to_string InputSystem.file_src h = refl
msys_of-delsys_to_string InputSystem.streamer h = refl
msys_of-delsys_to_string InputSystem.childpipe h = absurd (cc)
msys_of-delsys_to_string InputSystem.iptv h = absurd (cc)

-- The word that a frontend describes a setting with is read back from a request: the error
-- correction, the pilot tones, the roll-off, the transmission mode (but for the two of China) and
-- the guard interval as that setting if the word is not empty, and where it is empty, as for an
-- automatic setting, the request leaves the setting as it was; the modulation but for the automatic
-- one, the polarization, and the delivery system if it has a word of its own, as that setting.
pub words-read :
    (old_fec fec : Fec) (old modtype : Modulation) (old_pilot pilot : Pilot)
    (old_rolloff rolloff : Rolloff) (old_mode mode : Transmission) (old_guard guard : Guard)
    (old_pol pol : Polarization) (delsys : InputSystem)
    → modtype ≢ qam_auto
    → mode ≢ mode_c1
    → mode ≢ mode_c3780
    → has_word delsys ≡ true
    → (read_fec old_fec (fec_to_string fec)
        ≡ (if not_empty (fec_to_string fec) then fec else old_fec))
      × (read_modtype old (modtype_to_string modtype) ≡ modtype)
      × (read_pilot old_pilot (pilot_tone_to_string pilot)
          ≡ (if not_empty (pilot_tone_to_string pilot) then pilot else old_pilot))
      × (read_rolloff old_rolloff (rolloff_to_string rolloff)
          ≡ (if not_empty (rolloff_to_string rolloff) then rolloff else old_rolloff))
      × (read_transmission old_mode (transmode_to_string mode)
          ≡ (if not_empty (transmode_to_string mode) then mode else old_mode))
      × (read_guard old_guard (guardinter_to_string guard)
          ≡ (if not_empty (guardinter_to_string guard) then guard else old_guard))
      × (read_polarization old_pol (Lnb.translate_polarization_to_char pol ∷ []) ≡ pol)
      × (msys_of (delsys_to_string delsys) ≡ delsys)
words-read ofec fec old modtype op pilot oro rolloff om mode og guard old_pol pol delsys m c1 c2 s =
    (
      read_fec-fec_to_string ofec fec,
      read_modtype-modtype_to_string old modtype m,
      read_pilot-pilot_tone_to_string op pilot,
      read_rolloff-rolloff_to_string oro rolloff,
      read_transmission-transmode_to_string om mode c1 c2,
      read_guard-guardinter_to_string og guard,
      read_polarization-char old_pol pol,
      msys_of-delsys_to_string delsys s,
    )
