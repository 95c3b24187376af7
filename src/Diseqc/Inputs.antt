-- ===== src/Diseqc/Inputs.antt =====
-- Which converter `DiSEqcSwitch` of src/input/dvb/delivery/DiSEqcSwitch.cpp takes for an input, and the
-- commands that it sends.
use mathlib.Core.List.{append_assoc, append-nil}
use satpi.Base.{
  ◌≢◌, ◌⊎◌, ◌+◌, ◌*◌, ◌/◌, ◌%◌, ◌^◌, ◌==◌, ◌||◌, ◌++◌, ◌∙◌, sym, replicate, if◌then◌else◌, Bool,
  true, false, Option-cases, ℕ, zero, suc, ◌<◌, ◌≤◌, ◌≡◌, ◌↔◌, inl, inr, refl, arith, ltb, none,
  some, List, [], ◌∷◌, length, get_elem?, Bool-cases,
}
use satpi.Lnb.{Lnb, Polarization, is_horizontal, get_intermediate_frequency}
use satpi.Diseqc.{
  Switch, SwitchType, committed, uncommitted, cascade, MiniSwitch, do_not_send, mini_of, Ioctl,
  set_voltage, set_tone, voltage_of, setup_lnb, command_of, send_master_command,
  send_switch_commands, send_switch, lnb_of,
}
use satpi.Diseqc.Commands.{recorder, commands, commands-append, commands-send_master_command}

get_elem?-none : {A : Type 0} (xs : List A) (i : ℕ) → (get_elem? xs i ≡ none) ↔ (length xs ≤ i)
get_elem?-none [] i = ((λ h. omega arith), (λ h. refl))
get_elem?-none (x ∷ xs) zero = ((λ h. absurd (cc)), (λ h. absurd (omega arith)))
get_elem?-none (x ∷ xs) (suc i) =
    let ih = get_elem?-none xs i in ((λ h. omega (arith, ih.0 h)), (λ h. ih.1 (omega arith)))

lnb_of-none :
    (s : Switch) (src : ℕ)
    → length s.lnb ≡ s.number_of_inputs
    → 0 < s.number_of_inputs
    → (lnb_of s src ≡ none) ↔ (src ≡ s.number_of_inputs)
unfolding lnb_of
lnb_of-none s src all one = elim (Bool-cases (ltb s.number_of_inputs src)) [
  | inl e ↦
      ((λ h. absurd (omega (arith, (get_elem?-none s.lnb 0).0 (rw e at h)))), (λ h. ground arith))
  | inr e ↦ (
    (λ h. let l = (get_elem?-none s.lnb src).0 (rw e at h) in ground arith),
    (λ h. rw e ((get_elem?-none s.lnb src).1 (omega arith))),
  )
]

-- The converter is that of the input, or the first.
converter :
    (s : Switch) (src : ℕ) (l : Lnb)
    → src ≢ s.number_of_inputs
    → lnb_of s src ≡ some l
    → get_elem? s.lnb (if ltb src s.number_of_inputs then src else 0) ≡ some l
unfolding lnb_of
converter s src l other e = ground arith

-- A command to a switch: its framing, then the switches, their group of ports, and the port.
abbrev to_switch : ℕ → Switch → ℕ → List ℕ
to_switch framing s port =
    framing ∷ 0x10 ∷ (if s.address_byte == 0x10 then s.command_byte else 0x38) ∷ port ∷ []

-- The first command, and the same marked as repeated as often as the switch is to be told again.
abbrev told : Switch → ℕ → List (List ℕ)
told s port = to_switch 0xe0 s port ∷ replicate s.diseqc_repeat (to_switch 0xe1 s port)

-- What a switch is sent for a source: nothing where the voltage is blocked; the source, the
-- polarization and the band to a committed switch; the source alone to an uncommitted one; and the
-- two ports to the two groups of a cascade, in the order that a bit of the source asks for.
abbrev pub switch_sends : Switch → ℕ → Polarization → Bool → List (List ℕ)
switch_sends s src pol hiband =
    let lower = 0xe0 ∷ 0x10 ∷ 0x38 ∷ (0xf0 + src % 4) ∷ [] in
    let upper = 0xe0 ∷ 0x10 ∷ 0x39 ∷ (0xf0 + src / 4 % 16) ∷ [] in
    if s.address_byte == 0x14 || s.address_byte == 0x15 then [] else elim s.switch_type [
      | committed ↦
          told s (
            0xf0 + 4 * (src % 4) + (if is_horizontal pol then 2 else 0) + (if hiband then 1 else 0))
      | uncommitted ↦ told s (0xf0 + src % 16)
      | cascade ↦ if src / 64 % 2 == 1 then upper ∷ lower ∷ [] else lower ∷ upper ∷ []
    ]

command_of_lem : (s : Switch) (port : ℕ) → command_of s port ≡ to_switch 0xe0 s port
command_of_lem s port = ground arith

port_of : (src : ℕ) → src * 2 ^ 2 % 2 ^ 4 ≡ 4 * (src % 4)
port_of src = omega arith

told-commands :
    (s : Switch) (sw : MiniSwitch) (port : ℕ) (calls : List Ioctl)
    → commands (send_master_command recorder s.diseqc_repeat sw (command_of s port) calls).0
      ≡ commands calls ++ told s port
told-commands s sw port calls =
    (commands-send_master_command s.diseqc_repeat sw (command_of s port) calls).0
    ∙ rw (command_of_lem s port) refl

both-commands :
    (sw : MiniSwitch) (first second : List ℕ) (calls : List Ioctl)
    → commands
        (send_master_command recorder 0 sw second
          (send_master_command recorder 0 do_not_send first calls).0).0
      ≡ commands calls ++ (first ∷ second ∷ [])
both-commands sw first second calls =
    (commands-send_master_command 0 sw second _).0
    ∙ rw (commands-send_master_command 0 do_not_send first calls).0
        (append_assoc (commands calls) (first ∷ []) (second ∷ []))

switch-commands :
    (s : Switch) (t : SwitchType) (src : ℕ) (pol : Polarization) (hiband : Bool)
    (calls : List Ioctl)
    → s.switch_type ≡ t
    → commands (send_switch_commands recorder s src pol hiband calls)
      ≡ commands calls ++ switch_sends s src pol hiband
unfolding send_switch_commands
switch-commands s committed src pol hiband calls e =
    elim (Bool-cases (s.address_byte == 0x14 || s.address_byte == 0x15)) [
      | inl blocked ↦ rw blocked (sym (append-nil (commands calls)))
      | inr free ↦
          rw (free, e, send_switch_commands)
            (rw (port_of src) (told-commands s (mini_of src) _ calls))
    ]
switch-commands s uncommitted src pol hiband calls e =
    elim (Bool-cases (s.address_byte == 0x14 || s.address_byte == 0x15)) [
      | inl blocked ↦ rw blocked (sym (append-nil (commands calls)))
      | inr free ↦ rw (free, e, send_switch_commands) (told-commands s (mini_of src) _ calls)
    ]
switch-commands s cascade src pol hiband calls e =
    elim (Bool-cases (s.address_byte == 0x14 || s.address_byte == 0x15)) [
      | inl blocked ↦ rw blocked (sym (append-nil (commands calls)))
      | inr free ↦ elim (Bool-cases (src / 64 % 2 == 1)) [
        | inl high ↦ rw (free, e, send_switch_commands, high) (both-commands _ _ _ calls)
        | inr low ↦ rw (free, e, send_switch_commands, low) (both-commands _ _ _ calls)
      ]
    ]

-- The converter gets its voltage and its tone, which are no commands.
setup-commands :
    (pol : Polarization) (hiband : Bool) (calls : List Ioctl)
    → (commands (setup_lnb recorder pol hiband calls).0 ≡ commands calls)
      × ((setup_lnb recorder pol hiband calls).1 ≡ true)
setup-commands pol hiband calls = (
  commands-append (calls ++ (set_voltage (voltage_of pol) ∷ [])) (set_tone hiband ∷ [])
      ∙ append-nil _
      ∙ commands-append calls (set_voltage (voltage_of pol) ∷ [])
      ∙ append-nil _,
  refl,
)

-- A switch with a converter for each of its inputs, one at least, on a frontend that does all calls:
-- for the source that is equal to the number of inputs it reads behind its converters. For any other,
-- be it an input of the switch or far above, it tunes to the intermediate frequency of that input's
-- converter, or of the first for a source far above, and sends exactly the commands `switch_sends`
-- in the band of that converter, which are none at the addresses 0x14 and 0x15.
pub commands-send_switch :
    (s : Switch) (src : ℕ) (pol : Polarization) (freq : ℕ) (calls : List Ioctl)
    → length s.lnb ≡ s.number_of_inputs
    → 0 < s.number_of_inputs
    → ((src ≡ s.number_of_inputs) × (send_switch recorder s src pol freq calls ≡ none))
      ⊎ ((l : Lnb) × (calls' : List Ioctl) × (src ≢ s.number_of_inputs)
          × (get_elem? s.lnb (if ltb src s.number_of_inputs then src else 0) ≡ some l)
          × (send_switch recorder s src pol freq calls
              ≡ some ((get_intermediate_frequency l freq false pol).0, calls', true))
          × (commands calls'
              ≡ commands calls
                ++ switch_sends s src pol (get_intermediate_frequency l freq false pol).1))
unfolding send_switch
commands-send_switch s src pol freq calls all one = elim (Option-cases (lnb_of s src)) [
  | inl e ↦ inl ((lnb_of-none s src all one).0 e, rw e refl)
  | inr (l, e) ↦
      let hiband : Bool = (get_intermediate_frequency l freq false pol).1 in
      let sent = send_switch_commands recorder s src pol hiband calls in
      let (same, done) = setup-commands pol hiband sent in
      let other : src ≢ s.number_of_inputs =
        λ h. let behind = (lnb_of-none s src all one).1 h in cc in
      inr (
        l,
        (setup_lnb recorder pol hiband sent).0,
        other,
        converter s src l other e,
        rw e refl,
        same ∙ switch-commands s s.switch_type src pol hiband calls refl,
      )
]
