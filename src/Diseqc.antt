-- ===== src/Diseqc.antt =====
-- src/input/dvb/delivery/DiSEqc*.{h,cpp}: the commands to the switches and converters of a dish. The
-- calls of the driver are a parameter, `ioctl`, which tells whether it was done; the waiting between
-- them is left out. Where the code sets bits by `|=`, these are clear before, and `+` sets them.
pub mod Tuned
pub mod Commands
pub mod Inputs
mod Tests
use satpi.Base.{
  ℕ, zero, suc, ◌+◌, ◌-◌, ◌*◌, ◌/◌, ◌%◌, ◌^◌, Bool, true, false, not, ◌&&◌, ◌||◌, if◌then◌else◌,
  ◌==◌, ltb, leb, Option, none, some, List, [], ◌∷◌, get_elem?, u8, u32, ◌>>=◌,
}
use satpi.Lnb
use satpi.Lnb.{Lnb, Polarization, vertical, circular_right, is_horizontal}

pub data Voltage : Type 0 where
  volt_13 volt_18 off : Voltage

pub data MiniSwitch : Type 0 where
  do_not_send mini_a mini_b : MiniSwitch

pub data Ioctl : Type 0 where
  set_voltage : Voltage → Ioctl
  enable_high_lnb_voltage : Bool → Ioctl
  set_tone : Bool → Ioctl
  master_cmd : List ℕ → Ioctl
  burst : MiniSwitch → Ioctl

pub record Frontend (F : Type 0) : Type 0 where
  pub ioctl : Ioctl → F → F × Bool

abbrev pub mini_of : ℕ → MiniSwitch
mini_of src = if src % 2 == 1 then mini_b else mini_a

abbrev pub bit : Bool → ℕ → ℕ
bit b n = if b then n else 0

-- The voltage for the polarization.
abbrev pub voltage_of : Polarization → Voltage
voltage_of vertical = volt_13
voltage_of circular_right = volt_13
voltage_of _ = volt_18

abbrev pub repeated : List ℕ → List ℕ
repeated [] = []
repeated (framing ∷ cmd) = 0xe1 ∷ cmd

module _ {F : Type 0} (dev : Frontend F) where
  -- A call whose failure is only told to the log, and one whose failure ends the function.
  abbrev pub call : Ioctl → F → F
  call c f = (dev.ioctl c f).0

  abbrev pub then_if : F × Bool → (F → F × Bool) → F × Bool
  then_if (f, true) k = k f
  then_if (f, false) k = (f, false)

  abbrev pub send_burst : MiniSwitch → F → F × Bool
  send_burst do_not_send f = (f, true)
  send_burst sw f = dev.ioctl (burst sw) f

  -- A round of the loop.
  unfoldable pub send_once : MiniSwitch → List ℕ → F → F × Bool
  send_once sw cmd f = then_if (dev.ioctl (set_tone false) (call (set_voltage volt_18) f)) (λ f1.
      then_if (send_burst sw (call (master_cmd cmd) f1))
        (λ f2. (call (set_voltage volt_13) f2, true)))

  -- The command is marked as repeated from the second round on.
  unfoldable pub send_master_command : ℕ → MiniSwitch → List ℕ → F → F × Bool
  unfolding send_once
  send_master_command zero sw cmd f = send_once sw cmd f
  send_master_command (suc repeat) sw cmd f =
      then_if (send_once sw cmd f) (send_master_command repeat sw (repeated cmd))

  abbrev pub turn_off_lnb_power : F → F
  turn_off_lnb_power f = call (set_voltage off) f

  abbrev pub enable_higher_lnb_voltage : Bool → F → F
  enable_higher_lnb_voltage higher f = call (enable_high_lnb_voltage higher) f

  unfoldable pub send_reset_command : F → F
  unfolding send_master_command
  send_reset_command f = (send_master_command 0 do_not_send (0xe0 ∷ 0x00 ∷ 0x00 ∷ []) f).0

  unfoldable pub send_peripherial_power_on_command : F → F
  unfolding send_master_command
  send_peripherial_power_on_command f =
      (send_master_command 0 do_not_send (0xe0 ∷ 0x00 ∷ 0x03 ∷ []) f).0

  -- The converter gets its voltage and tone, the last step of most senders.
  abbrev pub setup_lnb : Polarization → Bool → F → F × Bool
  setup_lnb pol hiband f =
      then_if (dev.ioctl (set_voltage (voltage_of pol)) f) (dev.ioctl (set_tone hiband))

-- What a sender leaves: the frequency to tune to, the frontend, and whether all went well.
abbrev pub Sent : Type 0 → Type 0
Sent F = ℕ × F × Bool

abbrev pub sent : {F : Type 0} → ℕ → F × Bool → Sent F
sent freq (f, done) = (freq, f, done)

-- Unicable: `DiSEqcEN50494` and `DiSEqcEN50607`.
pub record Unicable : Type 0 where
  pub pin : ℕ
  pub ch_slot : ℕ
  pub ch_freq : ℕ
  pub lnb : Lnb
  pub diseqc_repeat : ℕ

-- `round((freq / 1000.0 + chFreq + 2.0) / 4.0 - 350.0)`, and none where that is negative. It is a
-- half and an integer only where `freq` is whole thousands, and then a `double` has it exactly; all
-- else is too far from that to be rounded otherwise.
unfoldable pub tuning_en50494 : ℕ → ℕ → Option ℕ
tuning_en50494 ch_freq freq =
    if ltb 1396000 (freq + 1000 * ch_freq)
    then some (u32 ((freq + 1000 * ch_freq - 1396000) / 4000))
    else none

unfoldable pub command_en50494 : ℕ → ℕ → Polarization → Bool → ℕ → List ℕ
command_en50494 ch_slot src pol hiband t =
    0xe0
    ∷ 0x10
    ∷ 0x5a
    ∷ (u8 (ch_slot * 2 ^ 5)
        + bit (leb 1 src) 0x10
        + bit (is_horizontal pol) 0x8
        + bit hiband 0x4
        + t / 2 ^ 8 % 4)
    ∷ (t % 2 ^ 8)
    ∷ []

-- `freq / 1000.0 - 100.0` without its fraction, and none where that is negative.
unfoldable pub tuning_en50607 : ℕ → Option ℕ
tuning_en50607 freq =
    if leb 100000 freq then some (freq / 1000 - 100) else if ltb 99000 freq then some 0 else none

unfoldable pub command_en50607 : ℕ → ℕ → Polarization → Bool → ℕ → List ℕ
command_en50607 ch_slot src pol hiband t =
    0x70
    ∷ u8 (ch_slot * 2 ^ 3 + t / 2 ^ 8 % 8)
    ∷ (t % 2 ^ 8)
    ∷ (src * 2 ^ 2 % 2 ^ 4 + bit (is_horizontal pol) 0x2 + bit hiband 0x1)
    ∷ []

pub data SwitchType : Type 0 where
  committed uncommitted cascade : SwitchType

-- `DiSEqcSwitch`, with a converter for each of its inputs.
pub record Switch : Type 0 where
  pub lnb : List Lnb
  pub number_of_inputs : ℕ
  pub address_byte : ℕ
  pub command_byte : ℕ
  pub switch_type : SwitchType
  pub diseqc_repeat : ℕ

abbrev pub new_switch : Switch
new_switch = record {
  lnb = Lnb.new_lnb ∷ [];
  number_of_inputs = 1;
  address_byte = 0x10;
  command_byte = 0x38;
  switch_type = committed;
  diseqc_repeat = 0;
}

-- The first bytes of a command: an address that is not known becomes that of any switch.
abbrev pub is_dc_blocking : ℕ → Bool
is_dc_blocking address = address == 0x14 || address == 0x15

abbrev pub command_of : Switch → ℕ → List ℕ
command_of s port =
    if s.address_byte == 0x10
    then 0xe0 ∷ 0x10 ∷ s.command_byte ∷ port ∷ []
    else 0xe0 ∷ 0x10 ∷ 0x38 ∷ port ∷ []

-- A command of a cascade, to the committed or to the uncommitted switches.
abbrev pub group_command : ℕ → ℕ → List ℕ
group_command command src = 0xe0 ∷ 0x10 ∷ command ∷ (0xf0 + src) ∷ []

-- The converter of the input, or the first where there is no such input; none is a read behind the
-- converters.
unfoldable pub lnb_of : Switch → ℕ → Option Lnb
lnb_of s src = get_elem? s.lnb (if ltb s.number_of_inputs src then 0 else src)

module _ {F : Type 0} (dev : Frontend F) where
  unfoldable pub send_en50494 : Unicable → ℕ → Polarization → ℕ → F → Option (Sent F)
  unfolding Lnb.get_intermediate_frequency tuning_en50494 command_en50494 send_master_command
  send_en50494 u src pol freq f =
      let (ifreq, hiband) = Lnb.get_intermediate_frequency u.lnb freq false pol in
      do
        t ← tuning_en50494 u.ch_freq ifreq
        some (
            sent (u32 (u.ch_freq * 1000)) (
              send_master_command dev u.diseqc_repeat do_not_send
                (command_en50494 u.ch_slot src pol hiband t) f))

  unfoldable pub send_en50607 : Unicable → ℕ → Polarization → ℕ → F → Option (Sent F)
  unfolding Lnb.get_intermediate_frequency tuning_en50607 command_en50607 send_master_command
  send_en50607 u src pol freq f =
      let (ifreq, hiband) = Lnb.get_intermediate_frequency u.lnb freq false pol in
      do
        t ← tuning_en50607 ifreq
        some (
            sent (u32 (u.ch_freq * 1000)) (
              send_master_command dev u.diseqc_repeat do_not_send
                (command_en50607 u.ch_slot src pol hiband t) f))

  -- `DiSEqcLnb`: a mini switch before the converter.
  unfoldable pub send_lnb : Lnb → ℕ → Polarization → ℕ → F → Sent F
  unfolding Lnb.get_intermediate_frequency
  send_lnb l src pol freq f =
      let (ifreq, hiband) = Lnb.get_intermediate_frequency l freq false pol in
      sent ifreq (
        then_if dev (dev.ioctl (set_voltage volt_18) f) (λ f1.
          then_if dev (dev.ioctl (set_tone false) f1) (λ f2.
            then_if dev (dev.ioctl (burst (mini_of src)) f2)
              (λ f3. setup_lnb dev pol hiband (call dev (set_voltage volt_13) f3)))))

  -- What the switch is sent; whether that was done is not looked at.
  unfoldable pub send_switch_commands : Switch → ℕ → Polarization → Bool → F → F
  unfolding send_master_command
  send_switch_commands s src pol hiband f =
      if is_dc_blocking s.address_byte then f else elim s.switch_type [
        | committed ↦
            (send_master_command dev s.diseqc_repeat (mini_of src)
              (command_of s
                (0xf0 + src * 2 ^ 2 % 2 ^ 4 + bit (is_horizontal pol) 0x2 + bit hiband 0x1))
              f).0
        | uncommitted ↦
            (send_master_command dev s.diseqc_repeat (mini_of src)
              (command_of s (0xf0 + src % 2 ^ 4)) f).0
        | cascade ↦
            let src_committed = group_command 0x38 (src % 2 ^ 2) in
            let src_uncommitted = group_command 0x39 (src / 2 ^ 2 % 2 ^ 4) in
            let minisw = if src / 2 ^ 7 % 2 == 1 then mini_b else mini_a in
            let uncommitted_first = src / 2 ^ 6 % 2 == 1 in
            let first = if uncommitted_first then src_uncommitted else src_committed in
            let second = if uncommitted_first then src_committed else src_uncommitted in
            (send_master_command dev 0 minisw second
              (send_master_command dev 0 do_not_send first f).0).0
      ]

  unfoldable pub send_switch : Switch → ℕ → Polarization → ℕ → F → Option (Sent F)
  unfolding Lnb.get_intermediate_frequency send_switch_commands lnb_of
  send_switch s src pol freq f = do
    l ← lnb_of s src
    let ih = Lnb.get_intermediate_frequency l freq false pol
    some (sent ih.0 (setup_lnb dev pol ih.1 (send_switch_commands s src pol ih.1 f)))
