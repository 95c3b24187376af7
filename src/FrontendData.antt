-- ===== src/FrontendData.antt =====
-- src/input/dvb/FrontendData.{h,cpp} and DeviceData.{h,cpp}: the settings of a frontend, and how a
-- request changes them. `double` is a parameter, of which `Doubles` has what is used; so is the PID
-- filter. `none` is an exception that leaves the function, or the overflow of the symbol rate. A
-- stream id that is `none` is `NO_STREAM_ID`, which no request can name. Members that no request changes
-- are left out.
pub mod Words
pub mod Printed
pub mod Changed
mod Tests
use satpi.Base.{
  ℕ, ◌*◌, ◌%◌, ◌^◌, Bool, true, false, not, ◌&&◌, ◌||◌, if◌then◌else◌, ◌==◌, ltb, leb, Option, none,
  some, List, [], ◌∷◌, get_or, get_elem?, ◌>>=◌,
}
use satpi.Text.{codes, is_digit, Stoi, value, negative, invalid_argument, out_of_range}
use satpi.Text.Search.{text_eq, not_empty}
use satpi.Lnb.{Polarization, horizontal}
use satpi.Params.{InputSystem, get_parameter, get_int_parameter, get_msys_parameter}
use satpi.FrontendData.Words.{
  Fec, Modulation, Pilot, Rolloff, Transmission, Guard, qam_auto, fec_auto, rolloff_auto,
  pilot_auto, mode_auto, guard_auto, qpsk, psk_8, read_fec, read_modtype, read_pilot, read_rolloff,
  read_transmission, read_guard, read_polarization,
}

-- What the code does with floating point: `stof`, which may throw, -1.0, the comparison, a number of
-- kHz in MHz and back, and a number of MHz in Hz.
pub record Doubles (R : Type 0) : Type 0 where
  pub stof : List ℕ → Option R
  pub minus_one : R
  pub same : R → R → Bool
  pub of_khz : ℕ → R
  pub to_khz : R → ℕ
  pub to_hz : R → ℕ

pub record Pids (F : Type 0) : Type 0 where
  pub clear : F → F
  pub parse_pid_string : List ℕ → Bool → F → Option F

pub record Monitor : Type 0 where
  pub status : ℕ
  pub strength : ℕ
  pub snr : ℕ
  pub ber : ℕ
  pub ublocks : ℕ

-- The mode of the physical layer signalling is its number: root is 0, gold 1. The spectral inversion
-- is `none` where it is automatic.
pub record FrontendData (F : Type 0) : Type 0 where
  pub changed : Bool
  pub delsys : InputSystem
  pub filter : F
  pub monitor : Monitor
  pub freq : ℕ
  pub modtype : Modulation
  pub srate : ℕ
  pub fec : Fec
  pub rolloff : Rolloff
  pub inversion : Option ℕ
  pub pilot : Pilot
  pub src : ℕ
  pub pol : Polarization
  pub pls_mode : ℕ
  pub is_id : Option ℕ
  pub pls_code : ℕ
  pub transmission : Transmission
  pub guard : Guard
  pub bandwidth_hz : ℕ
  pub plp_id : Option ℕ
  pub t2_system_id : ℕ
  pub siso_miso : ℕ

abbrev pub no_signal : Monitor
no_signal = record { status = 0; strength = 0; snr = 0; ber = 0; ublocks = 0 }

-- `initialize` of the device data, which ends in `doInitialize`.
unfoldable pub initialize : {F : Type 0} → Pids F → FrontendData F → FrontendData F
initialize pids d = record {
  changed = false;
  delsys = InputSystem.undefined;
  filter = pids.clear d.filter;
  monitor = no_signal;
  freq = 0;
  modtype = qam_auto;
  srate = 0;
  fec = fec_auto;
  rolloff = rolloff_auto;
  inversion = none;
  pilot = pilot_auto;
  src = 1;
  pol = horizontal;
  pls_mode = 1;
  is_id = none;
  pls_code = 0;
  transmission = mode_auto;
  guard = guard_auto;
  bandwidth_hz = 8000000;
  plp_id = none;
  t2_system_id = 0;
  siso_miso = 0;
}

unfoldable pub get_double_parameter : {R : Type 0} → Doubles R → List ℕ → List (List ℕ) → Option R
unfolding get_parameter
get_double_parameter dbl parameter params =
    let val = get_parameter parameter params in
    if not_empty val && is_digit (get_or val 0 0) then dbl.stof val else some dbl.minus_one

-- A number, or that there is none, which is -1.
abbrev pub given : Stoi → Option (Option ℕ)
given (value n) = some (some n)
given (negative n) = some none
given invalid_argument = none
given out_of_range = none

abbrev pub or_keep : {A : Type 0} → Option A → A → A
or_keep none old = old
or_keep (some a) old = a

abbrev pub is_given : {A : Type 0} → Option A → Bool
is_given none = false
is_given (some a) = true

-- A modulation for a request without one.
abbrev pub guess_modtype : InputSystem → Modulation → Modulation
guess_modtype InputSystem.dvbs old = qpsk
guess_modtype InputSystem.dvbs2 old = psk_8
guess_modtype InputSystem.dvbt old = qam_auto
guess_modtype InputSystem.dvbt2 old = qam_auto
guess_modtype InputSystem.dvbc old = qam_auto
guess_modtype _ old = old

abbrev pub is_undefined : InputSystem → Bool
is_undefined InputSystem.undefined = true
is_undefined _ = false

module _ {F R : Type 0} (dbl : Doubles R) (pids : Pids F) (params : List (List ℕ)) where
  abbrev pub int : List ℕ → Option (Option ℕ)
  int parameter = given (get_int_parameter parameter params)

  abbrev pub word : List ℕ → List ℕ
  word parameter = get_parameter parameter params

  -- Another frequency clears all settings; the same one only the PIDs, and that for some methods.
  unfoldable pub parse_freq : FrontendData F → Option (FrontendData F)
  unfolding get_double_parameter initialize
  parse_freq d = do
    req_freq ← get_double_parameter dbl (codes "freq") params
    let method = get_or params 0 []
    some (
        if dbl.same req_freq dbl.minus_one
        then d
        else if not (dbl.same req_freq (dbl.of_khz d.freq))
        then record (initialize pids d) { freq = dbl.to_khz req_freq; changed = true }
        else if text_eq method (codes "SETUP") || text_eq method (codes "PLAY")
        then record d { filter = pids.clear d.filter }
        else d)

  -- The streams of a transponder. The old ones are forgotten first.
  unfoldable pub parse_streams : FrontendData F → Option (FrontendData F)
  parse_streams d = do
    is_id ← int (codes "isi")
    pls_code ← int (codes "plsc")
    plp_id ← int (codes "plp")
    pls_mode ← int (codes "plsm")
    let code = or_keep pls_code 0
    let other_code = not (code == 0)
    some record d {
      is_id = is_id;
      pls_code = code % 2 ^ 18;
      plp_id = plp_id;
      pls_mode = or_keep pls_mode 1 % 2 ^ 2;
      changed = d.changed || is_given is_id || other_code || is_given plp_id;
    }

  abbrev pub symbol_rate : Option ℕ → ℕ → Option ℕ
  symbol_rate none old = some old
  symbol_rate (some sr) old = if ltb (sr * 1000) (2 ^ 31) then some (sr * 1000) else none

  abbrev pub source : Option ℕ → ℕ
  source none = 1
  source (some src) = if leb 1 src && leb src 255 then src else 1

  abbrev pub delivery : InputSystem → InputSystem → InputSystem
  delivery msys old = if is_undefined msys then old else msys

  abbrev pub modulation : InputSystem → Modulation → Modulation
  modulation msys old =
      let mtype = word (codes "mtype") in
      if not_empty mtype
      then read_modtype old mtype
      else if not (is_undefined msys)
      then guess_modtype msys old
      else old

  unfoldable pub parse_settings : FrontendData F → Option (FrontendData F)
  unfolding get_double_parameter get_parameter get_int_parameter
  parse_settings d = do
    sr ← int (codes "sr")
    srate ← symbol_rate sr d.srate
    src ← int (codes "src")
    specinv ← int (codes "specinv")
    bw ← get_double_parameter dbl (codes "bw") params
    t2id ← int (codes "t2id")
    sm ← int (codes "sm")
    let msys = get_msys_parameter params
    some record d {
      srate = srate;
      delsys = delivery msys d.delsys;
      pol = read_polarization d.pol (word (codes "pol"));
      src = source src;
      pilot = read_pilot d.pilot (word (codes "plts"));
      rolloff = read_rolloff d.rolloff (word (codes "ro"));
      fec = read_fec d.fec (word (codes "fec"));
      modtype = modulation msys d.modtype;
      inversion = if is_given specinv then specinv else d.inversion;
      bandwidth_hz = if dbl.same bw dbl.minus_one then d.bandwidth_hz else dbl.to_hz bw;
      transmission = read_transmission d.transmission (word (codes "tmode"));
      guard = read_guard d.guard (word (codes "gi"));
      t2_system_id = or_keep t2id d.t2_system_id;
      siso_miso = or_keep sm d.siso_miso;
    }

  abbrev pub parse_pids : List ℕ → Bool → F → Option F
  parse_pids list add f = if not_empty list then pids.parse_pid_string list add f else some f

  unfoldable pub parse_and_update_pids_table : FrontendData F → Option (FrontendData F)
  unfolding get_parameter
  parse_and_update_pids_table d = do
    set ← parse_pids (word (codes "pids")) true d.filter
    added ← parse_pids (word (codes "addpids")) true set
    dropped ← parse_pids (word (codes "delpids")) false added
    some record d { filter = dropped }

  unfoldable pub do_parse_stream_string : FrontendData F → Option (FrontendData F)
  unfolding parse_freq parse_streams parse_settings parse_and_update_pids_table
  do_parse_stream_string d = do
    d1 ← parse_freq d
    d2 ← parse_streams d1
    d3 ← parse_settings d2
    parse_and_update_pids_table d3
