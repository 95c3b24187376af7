-- ===== src/Diseqc/Tests.antt =====
-- Commands for a universal converter, and an input that a switch does not have.
use satpi.Base.{
  ℕ, ◌+◌, ◌*◌, ◌≢◌, ◌⊎◌, if◌then◌else◌, ltb, get_elem?, ◌≡◌, ◌<◌, ◌≤◌, refl, arith, Option, none,
  some, List, [], ◌∷◌, Bool, true, false,
}
use satpi.Lnb.{Lnb, new_lnb, horizontal, get_intermediate_frequency}
use satpi.Diseqc.{
  Unicable, Switch, new_switch, send_en50494, send_en50607, send_switch, Ioctl, do_not_send,
  send_master_command, command_en50494, tuning_en50494,
}
use satpi.Diseqc.Commands.{recorder, commands, commands-send_master_command}
use satpi.Diseqc.Inputs.{switch_sends, commands-send_switch}
use satpi.Diseqc.Tuned.{read_en50494, read-command_en50494, tuning_en50494_near}

abbrev unicable : Unicable
unicable = record { pin = 256; ch_slot = 0; ch_freq = 1210; lnb = new_lnb; diseqc_repeat = 1 }

abbrev sent_commands : Option (ℕ × List Ioctl × Bool) → List (List ℕ)
sent_commands none = []
sent_commands (some (freq, calls, done)) = commands calls

-- The repeated command of EN 50607 has lost its first byte.
repeated_50607 :
    sent_commands (send_en50607 recorder unicable 0 horizontal 11494000 [])
    ≡ (0x70 ∷ 0x06 ∷ 0x6c ∷ 0x02 ∷ []) ∷ (0xe1 ∷ 0x06 ∷ 0x6c ∷ 0x02 ∷ []) ∷ []
unfolding send_en50607
repeated_50607 = refl

first_50494 :
    sent_commands
      (send_en50494 recorder (record unicable { diseqc_repeat = 0 }) 0 horizontal 11494000 [])
    ≡ (0xe0 ∷ 0x10 ∷ 0x5a ∷ 0x09 ∷ 0x85 ∷ []) ∷ []
unfolding send_en50494
first_50494 = refl

commands-send_master_command_example :
    (commands (send_master_command recorder 2 do_not_send (0xe0 ∷ 0x10 ∷ 0x5a ∷ []) []).0
      ≡ (0xe0 ∷ 0x10 ∷ 0x5a ∷ []) ∷ (0xe1 ∷ 0x10 ∷ 0x5a ∷ []) ∷ (0xe1 ∷ 0x10 ∷ 0x5a ∷ []) ∷ [])
    × ((send_master_command recorder 2 do_not_send (0xe0 ∷ 0x10 ∷ 0x5a ∷ []) []).1 ≡ true)
commands-send_master_command_example =
    commands-send_master_command 2 do_not_send (0xe0 ∷ 0x10 ∷ 0x5a ∷ []) []

-- A switch with four inputs, whose command goes out twice.
abbrev four_inputs : Switch
four_inputs = record new_switch {
  lnb = new_lnb ∷ new_lnb ∷ new_lnb ∷ new_lnb ∷ [];
  number_of_inputs = 4;
  diseqc_repeat = 1;
}

four_inputs_sends :
    switch_sends four_inputs 2 horizontal true
    ≡ (0xe0 ∷ 0x10 ∷ 0x38 ∷ 0xfb ∷ []) ∷ (0xe1 ∷ 0x10 ∷ 0x38 ∷ 0xfb ∷ []) ∷ []
four_inputs_sends = refl

commands-send_switch_example :
    ((2 ≡ four_inputs.number_of_inputs)
      × (send_switch recorder four_inputs 2 horizontal 11000000 [] ≡ none))
    ⊎ ((l : Lnb) × (calls' : List Ioctl) × (2 ≢ four_inputs.number_of_inputs)
        × (get_elem? four_inputs.lnb (if ltb 2 four_inputs.number_of_inputs then 2 else 0) ≡ some l)
        × (send_switch recorder four_inputs 2 horizontal 11000000 []
            ≡ some ((get_intermediate_frequency l 11000000 false horizontal).0, calls', true))
        × (commands calls'
            ≡ switch_sends four_inputs 2 horizontal
                (get_intermediate_frequency l 11000000 false horizontal).1))
commands-send_switch_example =
    commands-send_switch four_inputs 2 horizontal 11000000 [] refl (omega arith)

read-command_en50494_example : read_en50494 (command_en50494 5 1 horizontal true 700) ≡ record {
  user_band = 5;
  position_b = true;
  horizontal_pol = true;
  high_band = true;
  tuning = 700;
}
read-command_en50494_example =
    read-command_en50494 5 1 horizontal true 700 (omega arith) (omega arith)

abbrev wanted : ℕ
wanted = (get_intermediate_frequency new_lnb 11494000 false horizontal).0 + 1000 * 1210

tuning_en50494_near_example :
    (t : ℕ) × (tuning_en50494 1210 (get_intermediate_frequency new_lnb 11494000 false horizontal).0
      ≡ some t)
    × (t < 1024)
    × (4000 * (t + 350) ≤ wanted + 4000)
    × (wanted ≤ 4000 * (t + 350))
tuning_en50494_near_example =
    tuning_en50494_near 11494000 1210 horizontal (omega arith) (omega arith) (omega arith)
      (omega arith)
