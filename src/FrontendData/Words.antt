-- ===== src/FrontendData/Words.antt =====
-- The words of a request for the ways of transmission: how doParseStreamString of
-- src/input/dvb/FrontendData.cpp reads them, and how src/StringConverter.cpp writes them. The
-- constants are those of the kernel's API from version 5.9 on.
use satpi.Base.{ℕ, not, ◌||◌, if◌then◌else◌, List}
use satpi.Text.{codes}
use satpi.Text.Search.{text_eq, not_empty}
use satpi.Lnb.{Polarization, horizontal, vertical, circular_left, circular_right}
use satpi.Params.{InputSystem}

pub data Fec : Type 0 where
  fec_none fec_1_2 fec_2_3 fec_2_5 fec_3_4 fec_3_5 fec_4_5 fec_5_6 fec_6_7 fec_7_8 fec_8_9 fec_9_10
        fec_auto :
      Fec

pub data Modulation : Type 0 where
  qpsk dqpsk psk_8 apsk_16 apsk_32 qam_16 qam_32 qam_64 qam_128 qam_256 qam_auto : Modulation

pub data Pilot : Type 0 where
  pilot_on pilot_off pilot_auto : Pilot

pub data Rolloff : Type 0 where
  rolloff_35 rolloff_25 rolloff_20 rolloff_auto : Rolloff

pub data Transmission : Type 0 where
  mode_1k mode_2k mode_4k mode_8k mode_16k mode_32k mode_c1 mode_c3780 mode_auto : Transmission

pub data Guard : Type 0 where
  guard_1_4 guard_1_8 guard_1_16 guard_1_32 guard_1_128 guard_19_128 guard_19_256 guard_auto : Guard

-- An empty word leaves the setting as it was.
abbrev pub read_fec : Fec → List ℕ → Fec
read_fec old fec =
    if not (not_empty fec)
    then old
    else if text_eq fec (codes "12")
    then fec_1_2
    else if text_eq fec (codes "23")
    then fec_2_3
    else if text_eq fec (codes "25")
    then fec_2_5
    else if text_eq fec (codes "34")
    then fec_3_4
    else if text_eq fec (codes "35")
    then fec_3_5
    else if text_eq fec (codes "45")
    then fec_4_5
    else if text_eq fec (codes "56")
    then fec_5_6
    else if text_eq fec (codes "67")
    then fec_6_7
    else if text_eq fec (codes "78")
    then fec_7_8
    else if text_eq fec (codes "89")
    then fec_8_9
    else if text_eq fec (codes "910")
    then fec_9_10
    else fec_auto

abbrev pub fec_to_string : Fec → List ℕ
fec_to_string fec_none = codes ""
fec_to_string fec_1_2 = codes "12"
fec_to_string fec_2_3 = codes "23"
fec_to_string fec_2_5 = codes "25"
fec_to_string fec_3_4 = codes "34"
fec_to_string fec_3_5 = codes "35"
fec_to_string fec_4_5 = codes "45"
fec_to_string fec_5_6 = codes "56"
fec_to_string fec_6_7 = codes "67"
fec_to_string fec_7_8 = codes "78"
fec_to_string fec_8_9 = codes "89"
fec_to_string fec_9_10 = codes "910"
fec_to_string fec_auto = codes ""

-- Another word leaves the modulation as it was.
abbrev pub read_modtype : Modulation → List ℕ → Modulation
read_modtype old mtype =
    if text_eq mtype (codes "qpsk")
    then qpsk
    else if text_eq mtype (codes "dqpsk")
    then dqpsk
    else if text_eq mtype (codes "8psk") || text_eq mtype (codes "psk8")
    then psk_8
    else if text_eq mtype (codes "16apsk") || text_eq mtype (codes "apsk16")
    then apsk_16
    else if text_eq mtype (codes "32apsk") || text_eq mtype (codes "apsk32")
    then apsk_32
    else if text_eq mtype (codes "16qam") || text_eq mtype (codes "qam16")
    then qam_16
    else if text_eq mtype (codes "32qam") || text_eq mtype (codes "qam32")
    then qam_32
    else if text_eq mtype (codes "64qam") || text_eq mtype (codes "qam64")
    then qam_64
    else if text_eq mtype (codes "128qam") || text_eq mtype (codes "qam128")
    then qam_128
    else if text_eq mtype (codes "256qam") || text_eq mtype (codes "qam256")
    then qam_256
    else old

abbrev pub modtype_to_string : Modulation → List ℕ
modtype_to_string qpsk = codes "qpsk"
modtype_to_string dqpsk = codes "dqpsk"
modtype_to_string psk_8 = codes "8psk"
modtype_to_string apsk_16 = codes "16apsk"
modtype_to_string apsk_32 = codes "32apsk"
modtype_to_string qam_16 = codes "16qam"
modtype_to_string qam_32 = codes "32qam"
modtype_to_string qam_64 = codes "64qam"
modtype_to_string qam_128 = codes "128qam"
modtype_to_string qam_256 = codes "256qam"
modtype_to_string qam_auto = codes ""

-- An empty word leaves the setting as it was.
abbrev pub read_pilot : Pilot → List ℕ → Pilot
read_pilot old plts =
    if not (not_empty plts)
    then old
    else if text_eq plts (codes "on")
    then pilot_on
    else if text_eq plts (codes "off")
    then pilot_off
    else pilot_auto

abbrev pub pilot_tone_to_string : Pilot → List ℕ
pilot_tone_to_string pilot_on = codes "on"
pilot_tone_to_string pilot_off = codes "off"
pilot_tone_to_string pilot_auto = codes ""

-- An empty word leaves the setting as it was.
abbrev pub read_rolloff : Rolloff → List ℕ → Rolloff
read_rolloff old ro =
    if not (not_empty ro)
    then old
    else if text_eq ro (codes "0.35")
    then rolloff_35
    else if text_eq ro (codes "0.25")
    then rolloff_25
    else if text_eq ro (codes "0.20")
    then rolloff_20
    else rolloff_auto

abbrev pub rolloff_to_string : Rolloff → List ℕ
rolloff_to_string rolloff_35 = codes "0.35"
rolloff_to_string rolloff_25 = codes "0.25"
rolloff_to_string rolloff_20 = codes "0.20"
rolloff_to_string rolloff_auto = codes ""

-- An empty word leaves the setting as it was.
abbrev pub read_transmission : Transmission → List ℕ → Transmission
read_transmission old tmode =
    if not (not_empty tmode)
    then old
    else if text_eq tmode (codes "1k")
    then mode_1k
    else if text_eq tmode (codes "2k")
    then mode_2k
    else if text_eq tmode (codes "4k")
    then mode_4k
    else if text_eq tmode (codes "8k")
    then mode_8k
    else if text_eq tmode (codes "16k")
    then mode_16k
    else if text_eq tmode (codes "32k")
    then mode_32k
    else mode_auto

abbrev pub transmode_to_string : Transmission → List ℕ
transmode_to_string mode_1k = codes "1k"
transmode_to_string mode_2k = codes "2k"
transmode_to_string mode_4k = codes "4k"
transmode_to_string mode_8k = codes "8k"
transmode_to_string mode_16k = codes "16k"
transmode_to_string mode_32k = codes "32k"
transmode_to_string mode_c1 = codes "c1"
transmode_to_string mode_c3780 = codes "c3780"
transmode_to_string mode_auto = codes ""

-- An empty word leaves the setting as it was.
abbrev pub read_guard : Guard → List ℕ → Guard
read_guard old gi =
    if not (not_empty gi)
    then old
    else if text_eq gi (codes "14")
    then guard_1_4
    else if text_eq gi (codes "18")
    then guard_1_8
    else if text_eq gi (codes "116")
    then guard_1_16
    else if text_eq gi (codes "132")
    then guard_1_32
    else if text_eq gi (codes "1128")
    then guard_1_128
    else if text_eq gi (codes "19128")
    then guard_19_128
    else if text_eq gi (codes "19256")
    then guard_19_256
    else guard_auto

abbrev pub guardinter_to_string : Guard → List ℕ
guardinter_to_string guard_1_4 = codes "14"
guardinter_to_string guard_1_8 = codes "18"
guardinter_to_string guard_1_16 = codes "116"
guardinter_to_string guard_1_32 = codes "132"
guardinter_to_string guard_1_128 = codes "1128"
guardinter_to_string guard_19_128 = codes "19128"
guardinter_to_string guard_19_256 = codes "19256"
guardinter_to_string guard_auto = codes ""

-- An empty word, or another one, leaves the polarization as it was.
abbrev pub read_polarization : Polarization → List ℕ → Polarization
read_polarization old pol =
    if not (not_empty pol)
    then old
    else if text_eq pol (codes "h")
    then horizontal
    else if text_eq pol (codes "v")
    then vertical
    else if text_eq pol (codes "l")
    then circular_left
    else if text_eq pol (codes "r")
    then circular_right
    else old

abbrev pub delsys_to_string : InputSystem → List ℕ
delsys_to_string InputSystem.dvbs2 = codes "dvbs2"
delsys_to_string InputSystem.dvbs = codes "dvbs"
delsys_to_string InputSystem.dvbt = codes "dvbt"
delsys_to_string InputSystem.dvbt2 = codes "dvbt2"
delsys_to_string InputSystem.childpipe = codes "childPIPE"
delsys_to_string InputSystem.file_src = codes "file"
delsys_to_string InputSystem.streamer = codes "streamer"
delsys_to_string InputSystem.dvbc = codes "dvbc"
delsys_to_string _ = codes "UNKNOWN DELSYS"
