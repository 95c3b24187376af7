-- ===== src/FrontendData/Tests.antt =====
-- Requests to a frontend, with floating point in thousandths.
use satpi.Base.{ℕ, ◌*◌, ◌≡◌, refl, false, ◌==◌, Option, none, some, List, [], ◌∷◌}
use satpi.Text.{codes, stoi, value}
use satpi.Text.Search.{text_eq}
use satpi.Lnb.{horizontal, vertical, translate_polarization_to_char}
use satpi.Lnb
use satpi.Params.{InputSystem, msys_of, get_int_parameter, get_parameter}
use satpi.FrontendData.{
  FrontendData, Doubles, Pids, no_signal, initialize, do_parse_stream_string, get_double_parameter,
}
use satpi.FrontendData.Words.{
  fec_9_10, fec_auto, pilot_on, rolloff_35, mode_2k, guard_1_4, qpsk, psk_8, pilot_off, rolloff_25,
  mode_32k, guard_19_256, read_fec, fec_to_string, read_modtype, modtype_to_string, read_pilot,
  pilot_tone_to_string, read_rolloff, rolloff_to_string, read_transmission, transmode_to_string,
  read_guard, guardinter_to_string, read_polarization, delsys_to_string,
}
use satpi.FrontendData.Printed.{words-read}
use satpi.FrontendData.Changed.{do_parse_stream_string-changed}

-- Whole numbers of MHz, in kHz and with -1 as 1.
abbrev whole : List ℕ → Option ℕ
whole s = elim (stoi s) [ value n ↦ some (n * 1000) | _ ↦ none ]

abbrev thousandths : Doubles ℕ
thousandths = record {
  stof = whole;
  minus_one = 1;
  same = λ a b. a == b;
  of_khz = λ n. n;
  to_khz = λ r. r;
  to_hz = λ r. r * 1000;
}

abbrev pid_list : Pids (List ℕ)
pid_list = record { clear = λ f. []; parse_pid_string = λ s add f. some s }

abbrev fresh : FrontendData (List ℕ)
fresh = initialize pid_list record {
  changed = false;
  delsys = InputSystem.undefined;
  filter = [];
  monitor = no_signal;
  freq = 0;
  modtype = qpsk;
  srate = 0;
  fec = fec_9_10;
  rolloff = rolloff_25;
  inversion = none;
  pilot = pilot_off;
  src = 0;
  pol = vertical;
  pls_mode = 0;
  is_id = none;
  pls_code = 0;
  transmission = mode_32k;
  guard = guard_19_256;
  bandwidth_hz = 0;
  plp_id = none;
  t2_system_id = 0;
  siso_miso = 0;
}

abbrev or_fresh : Option (FrontendData (List ℕ)) → FrontendData (List ℕ)
or_fresh none = fresh
or_fresh (some d) = d

-- Tuned to 11494 MHz, and no longer marked as changed.
abbrev tuned : FrontendData (List ℕ)
tuned = record fresh { freq = 11494000; delsys = InputSystem.dvbs2; pol = horizontal }

abbrev other_side : List (List ℕ)
other_side =
    codes "SETUP" ∷ codes "freq=11494" ∷ codes "pol=v" ∷ codes "msys=dvbs2" ∷ codes "pids=0,17" ∷ []

abbrev other_tuned : FrontendData (List ℕ)
other_tuned = or_fresh (do_parse_stream_string thousandths pid_list other_side tuned)

other_side_read : do_parse_stream_string thousandths pid_list other_side tuned ≡ some other_tuned
unfolding do_parse_stream_string initialize
other_side_read = refl

other_side_pol : other_tuned.pol ≡ vertical
unfolding do_parse_stream_string initialize text_eq
other_side_pol = refl

-- The other polarization, and not to be tuned again.
do_parse_stream_string-changed_example :
    (other_tuned.changed ≡ false) × (other_tuned.freq ≡ 11494000)
unfolding initialize get_double_parameter get_parameter get_int_parameter
do_parse_stream_string-changed_example =
    do_parse_stream_string-changed thousandths pid_list other_side tuned other_tuned other_side_read

words-read_example :
    (read_fec fec_9_10 (fec_to_string fec_auto) ≡ fec_9_10)
    × (read_modtype qpsk (modtype_to_string psk_8) ≡ psk_8)
    × (read_pilot pilot_on (pilot_tone_to_string pilot_off) ≡ pilot_off)
    × (read_rolloff rolloff_35 (rolloff_to_string rolloff_25) ≡ rolloff_25)
    × (read_transmission mode_2k (transmode_to_string mode_32k) ≡ mode_32k)
    × (read_guard guard_1_4 (guardinter_to_string guard_19_256) ≡ guard_19_256)
    × (read_polarization horizontal (Lnb.translate_polarization_to_char vertical ∷ []) ≡ vertical)
    × (msys_of (delsys_to_string InputSystem.dvbs2) ≡ InputSystem.dvbs2)
words-read_example =
    words-read fec_9_10 fec_auto qpsk psk_8 pilot_on pilot_off rolloff_35 rolloff_25 mode_2k
      mode_32k guard_1_4 guard_19_256 horizontal vertical InputSystem.dvbs2 (λ h. cc) (λ h. cc)
      (λ h. cc) refl
