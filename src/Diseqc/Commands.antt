-- ===== src/Diseqc/Commands.antt =====
-- The commands that `sendDiseqcMasterCommand` of src/input/dvb/delivery/DiSEqc.cpp sends.
use satpi.Base.{ℕ, zero, suc, ◌≡◌, refl, ap, ◌∙◌, true, false, List, [], ◌∷◌, ◌++◌, replicate}
use mathlib.Core.List.{append_assoc}
use satpi.Diseqc.{
  Frontend, Ioctl, MiniSwitch, do_not_send, mini_a, mini_b, set_voltage, enable_high_lnb_voltage,
  set_tone, master_cmd, burst, volt_13, volt_18, repeated, send_once, send_master_command,
}

-- A frontend whose calls are all done, with the calls in order.
abbrev pub recorder : Frontend (List Ioctl)
recorder = record { ioctl = λ c calls. (calls ++ (c ∷ []), true) }

-- The commands among the calls.
abbrev pub commands : List Ioctl → List (List ℕ)
commands [] = []
commands (master_cmd cmd ∷ calls) = cmd ∷ commands calls
commands (set_voltage v ∷ calls) = commands calls
commands (set_tone t ∷ calls) = commands calls
commands (enable_high_lnb_voltage h ∷ calls) = commands calls
commands (burst b ∷ calls) = commands calls

pub commands-append : (xs ys : List Ioctl) → commands (xs ++ ys) ≡ commands xs ++ commands ys
commands-append [] ys = refl
commands-append (master_cmd cmd ∷ xs) ys = ap (◌∷◌ cmd) (commands-append xs ys)
commands-append (set_voltage v ∷ xs) ys = commands-append xs ys
commands-append (set_tone t ∷ xs) ys = commands-append xs ys
commands-append (enable_high_lnb_voltage h ∷ xs) ys = commands-append xs ys
commands-append (burst b ∷ xs) ys = commands-append xs ys

abbrev calls_of : MiniSwitch → List Ioctl
calls_of do_not_send = set_voltage volt_13 ∷ []
calls_of sw = burst sw ∷ set_voltage volt_13 ∷ []

send_once_lem :
    (sw : MiniSwitch) (cmd : List ℕ) (calls : List Ioctl)
    → send_once recorder sw cmd calls
      ≡ (calls ++ (set_voltage volt_18 ∷ set_tone false ∷ master_cmd cmd ∷ calls_of sw), true)
unfolding send_once
send_once_lem do_not_send cmd calls = simp append_assoc
send_once_lem mini_a cmd calls = simp append_assoc
send_once_lem mini_b cmd calls = simp append_assoc

no_commands : (sw : MiniSwitch) → commands (calls_of sw) ≡ []
no_commands do_not_send = refl
no_commands mini_a = refl
no_commands mini_b = refl

repeated_again : (cmd : List ℕ) → repeated (repeated cmd) ≡ repeated cmd
repeated_again [] = refl
repeated_again (c ∷ cmd) = refl

repeated_twice :
    (n : ℕ) (cmd : List ℕ) → replicate n (repeated (repeated cmd)) ≡ replicate n (repeated cmd)
repeated_twice n cmd = rw (repeated_again cmd) refl

-- On a frontend that does all calls, the command goes out once as it is and then as often as it is to
-- be repeated, each time with 0xe1 in place of its first byte, and the sender tells that it is done.
pub commands-send_master_command :
    (repeat : ℕ) (sw : MiniSwitch) (cmd : List ℕ) (calls : List Ioctl)
    → (commands (send_master_command recorder repeat sw cmd calls).0
        ≡ commands calls ++ (cmd ∷ replicate repeat (repeated cmd)))
      × ((send_master_command recorder repeat sw cmd calls).1 ≡ true)
unfolding send_master_command
commands-send_master_command zero sw cmd calls =
    rw (send_once_lem sw cmd calls) (commands-append calls _ ∙ rw (no_commands sw) refl, refl)
commands-send_master_command (suc repeat) sw cmd calls =
    let calls' = calls ++ (set_voltage volt_18 ∷ set_tone false ∷ master_cmd cmd ∷ calls_of sw) in
    let (sent, done) = commands-send_master_command repeat sw (repeated cmd) calls' in
    let so_far : commands calls' ≡ commands calls ++ (cmd ∷ []) =
      rw
        (
          commands-append calls
              (set_voltage volt_18 ∷ set_tone false ∷ master_cmd cmd ∷ calls_of sw),
          no_commands sw,
        )
        refl in
    rw (send_once_lem sw cmd calls)
      (sent ∙ rw (so_far, repeated_again cmd) (append_assoc (commands calls) (cmd ∷ []) _), done)
