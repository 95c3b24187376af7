-- ===== src/Tuning/Tests.antt =====
-- Properties of a channel, and codes of the scrambling.
use satpi.Base.{ℕ, length, ◌≡◌, refl, some}
use satpi.FrontendData.{FrontendData}
use satpi.FrontendData.Words.{qpsk, fec_3_4, rolloff_35, pilot_on, mode_8k, guard_1_4}
use satpi.Base.{none, false}
use satpi.Lnb.{vertical}
use satpi.Params.{InputSystem}
use satpi.Tuning.{properties_dvbs, root2gold, shift}

third : root2gold (shift (shift (shift 1))) ≡ 3
unfolding root2gold
third = refl

abbrev channel : FrontendData ℕ
channel = record {
  changed = false;
  delsys = InputSystem.dvbs2;
  filter = 0;
  monitor = record { status = 0; strength = 0; snr = 0; ber = 0; ublocks = 0 };
  freq = 11494000;
  modtype = qpsk;
  srate = 22000000;
  fec = fec_3_4;
  rolloff = rolloff_35;
  inversion = none;
  pilot = pilot_on;
  src = 1;
  pol = vertical;
  pls_mode = 0;
  is_id = some 5;
  pls_code = 1;
  transmission = mode_8k;
  guard = guard_1_4;
  bandwidth_hz = 8000000;
  plp_id = none;
  t2_system_id = 0;
  siso_miso = 0;
}

-- Nine properties, the stream, the code of the scrambling, and the last.
twelve : length (properties_dvbs 0x050b channel 1494000) ≡ 12
unfolding properties_dvbs
twelve = refl
