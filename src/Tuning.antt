-- ===== src/Tuning.antt =====
-- src/input/dvb/delivery/DVBS, DVBT and DVBC: the properties that tune a frontend. The driver is a
-- parameter; its constants are those of the kernel's API from version 5.9 on. The DiSEqC of a root
-- tuner, with its file, is left out.
pub mod Gold
pub mod Bounds
mod Tests
use satpi.Base.{
  ℕ, zero, suc, ◌+◌, ◌-◌, ◌*◌, ◌/◌, ◌%◌, ◌^◌, Bool, true, false, not, ◌&&◌, ◌||◌, if◌then◌else◌,
  ◌==◌, leb, Option, none, some, List, [], ◌∷◌, ◌++◌, u32, ◌>>=◌,
}
use satpi.Lnb.{Lnb, Polarization}
use satpi.Diseqc
use satpi.Diseqc.{Frontend, Switch, Unicable, Sent}
use satpi.Params.{InputSystem}
use satpi.FrontendData.{FrontendData}
use satpi.FrontendData.Words.{Fec, Modulation, Pilot, Rolloff, Transmission, Guard}

pub data Property : Type 0 where
  clear tune inversion_auto hierarchy_auto : Property
  delivery_system : InputSystem → Property
  frequency : ℕ → Property
  modulation : Modulation → Property
  symbol_rate : ℕ → Property
  inner_fec : Fec → Property
  code_rate_hp : Fec → Property
  code_rate_lp : Fec → Property
  inversion : Option ℕ → Property
  rolloff : Rolloff → Property
  pilot : Pilot → Property
  stream_id : ℕ → Property
  scrambling_sequence_index : ℕ → Property
  bandwidth_hz : ℕ → Property
  transmission_mode : Transmission → Property
  guard_interval : Guard → Property
  lna : ℕ → Property

-- `convertDeliverySystem`: the systems the driver knows.
abbrev pub convert_delivery_system : InputSystem → InputSystem
convert_delivery_system InputSystem.dvbt = InputSystem.dvbt
convert_delivery_system InputSystem.dvbt2 = InputSystem.dvbt2
convert_delivery_system InputSystem.dvbs = InputSystem.dvbs
convert_delivery_system InputSystem.dvbs2 = InputSystem.dvbs2
convert_delivery_system InputSystem.dvbs2x = InputSystem.dvbs2
convert_delivery_system InputSystem.dvbc = InputSystem.dvbc
convert_delivery_system _ = InputSystem.undefined

abbrev pub is_dvbt2 : InputSystem → Bool
is_dvbt2 InputSystem.dvbt2 = true
is_dvbt2 _ = false

abbrev pub is_dvbt : InputSystem → Bool
is_dvbt InputSystem.dvbt = true
is_dvbt _ = false

abbrev pub is_dvbc : InputSystem → Bool
is_dvbc InputSystem.dvbc = true
is_dvbc _ = false

-- A step of the shift register: `(((x ^ (x >> 7)) & 1) << 17) | (x >> 1)`.
abbrev pub shift : ℕ → ℕ
shift x = (x + x / 2 ^ 7) % 2 * 2 ^ 17 + x / 2

abbrev pub gold_loop : ℕ → ℕ → ℕ → ℕ → ℕ
gold_loop root zero g x = 0x3ffff
gold_loop root (suc rounds) g x =
    let rest = gold_loop root rounds (suc g) (shift x) in if root == x then g else rest

unfoldable pub root2gold : ℕ → ℕ
root2gold root = gold_loop root 0x3ffff 0 1

-- `a | b` of two numbers of `w` bits.
abbrev pub bit_or : ℕ → ℕ → ℕ → ℕ
bit_or zero a b = 0
bit_or (suc w) a b = (if a % 2 == 1 || b % 2 == 1 then 1 else 0) + 2 * bit_or w (a / 2) (b / 2)

module _ {F : Type 0} (dvb_version : ℕ) (d : FrontendData F) where
  -- Old drivers take the mode and the code of the scrambling with the stream.
  abbrev pub stream_property : Option ℕ → List Property
  stream_property none = []
  stream_property (some id) =
      stream_id (
        if leb 0x0500 dvb_version && leb dvb_version 0x050a
        then bit_or 32 (bit_or 32 (d.pls_mode * 2 ^ 26) (d.pls_code * 2 ^ 8)) id
        else id)
      ∷ []

  abbrev pub scrambling_property : List Property
  scrambling_property =
      if leb 0x050b dvb_version && not (d.pls_mode == 2)
      then scrambling_sequence_index (if d.pls_mode == 0 then root2gold d.pls_code else d.pls_code)
        ∷ []
      else []

  unfoldable pub properties_dvbs : ℕ → List Property
  unfolding root2gold
  properties_dvbs freq =
      clear
      ∷ delivery_system (convert_delivery_system d.delsys)
      ∷ frequency freq
      ∷ modulation d.modtype
      ∷ symbol_rate d.srate
      ∷ inner_fec d.fec
      ∷ inversion_auto
      ∷ rolloff d.rolloff
      ∷ pilot d.pilot
      ∷ (stream_property d.is_id ++ (scrambling_property ++ (tune ∷ [])))

  abbrev pub plp_property : Option ℕ → List Property
  plp_property none = []
  plp_property (some plp) = if leb 0x0502 dvb_version then stream_id plp ∷ [] else []

  abbrev pub terrestrial : ℕ → List Property
  terrestrial lna_setting =
      delivery_system (convert_delivery_system d.delsys)
      ∷ frequency (u32 (d.freq * 1000))
      ∷ modulation d.modtype
      ∷ inversion d.inversion
      ∷ bandwidth_hz d.bandwidth_hz
      ∷ code_rate_hp d.fec
      ∷ code_rate_lp d.fec
      ∷ transmission_mode d.transmission
      ∷ guard_interval d.guard
      ∷ hierarchy_auto
      ∷ lna lna_setting
      ∷ tune
      ∷ []

  unfoldable pub properties_dvbt : ℕ → Option (List Property)
  properties_dvbt lna_setting =
      if is_dvbt2 d.delsys
      then some (clear ∷ (plp_property d.plp_id ++ terrestrial lna_setting))
      else if is_dvbt d.delsys
      then some (clear ∷ terrestrial lna_setting)
      else none

  unfoldable pub properties_dvbc : Option (List Property)
  properties_dvbc =
      if is_dvbc d.delsys
      then some (
          clear
          ∷ bandwidth_hz d.bandwidth_hz
          ∷ delivery_system (convert_delivery_system d.delsys)
          ∷ frequency (u32 (d.freq * 1000))
          ∷ inversion d.inversion
          ∷ modulation d.modtype
          ∷ symbol_rate d.srate
          ∷ inner_fec d.fec
          ∷ tune
          ∷ [])
      else none

-- What stands between the tuner and the converter.
pub data Dish : Type 0 where
  switch : Switch → Dish
  en50494 : Unicable → Dish
  en50607 : Unicable → Dish
  one_lnb : Lnb → Dish

-- `FE_SET_PROPERTY`, and the loop that takes all pending events before it.
pub record Tuner (T : Type 0) : Type 0 where
  pub frontend : Frontend T
  pub take_events : T → T
  pub set_property : List Property → T → T × Bool

module _ {T : Type 0} (dev : Tuner T) where
  unfoldable pub send_diseqc : Dish → ℕ → Polarization → ℕ → T → Option (Sent T)
  unfolding Diseqc.send_switch Diseqc.send_en50494 Diseqc.send_en50607 Diseqc.send_lnb
  send_diseqc (switch s) src pol freq t = Diseqc.send_switch dev.frontend s src pol freq t
  send_diseqc (en50494 u) src pol freq t = Diseqc.send_en50494 dev.frontend u src pol freq t
  send_diseqc (en50607 u) src pol freq t = Diseqc.send_en50607 dev.frontend u src pol freq t
  send_diseqc (one_lnb l) src pol freq t = some (Diseqc.send_lnb dev.frontend l src pol freq t)

  abbrev pub set_properties : List Property → T → T × Bool
  set_properties p t = dev.set_property p (dev.take_events t)

  -- `DVBT::tune` and `DVBC::tune`.
  abbrev pub tune_with : Option (List Property) → T → T × Bool
  tune_with none t = (t, false)
  tune_with (some p) t = set_properties p t

  -- `DVBS::tune`: the source of a request begins at 1, that of a switch at 0.
  unfoldable pub tune_dvbs : {F : Type 0} → Dish → Bool → ℕ → FrontendData F → T → Option (T × Bool)
  unfolding send_diseqc properties_dvbs
  tune_dvbs dish higher dvb_version d t = do
    sent ←
        send_diseqc dish (d.src - 1) d.pol d.freq
          (Diseqc.enable_higher_lnb_voltage dev.frontend higher t)
    some (
        if sent.2
        then set_properties (properties_dvbs dvb_version d sent.0) sent.1
        else (sent.1, false))

  abbrev pub teardown_dvbs : Bool → T → T
  teardown_dvbs turn_off t = if turn_off then Diseqc.turn_off_lnb_power dev.frontend t else t
