-- ===== src/DvbapiBatch/Tests.antt =====
-- A batch of two packets with a key for the even parity, and a library that changes nothing.
use satpi.Base.{
  ℕ, ◌≡◌, ◌<◌, ◌≤◌, ◌⊎◌, refl, arith, Bool, true, Option, none, some, List, Ptr, if◌then◌else◌,
  ◌==◌,
}
use satpi.DvbapiBatch.{Batch, new_batch, set_key, decrypt_scrambled, decrypt_batch}
use satpi.DvbapiBatch.Bounds.{IsBounded, Reach, here, key, scrambled, Reach-IsBounded}
use satpi.DvbapiBatch.Flags.{decrypt_batch-clear}

abbrev plain : ℕ → List (ℕ × ℕ) → Ptr → Ptr
plain k payloads mem = mem

-- Packets at 0 and 188, both scrambled with the even parity.
abbrev mem : Ptr
mem a = if a == 3 then 0x90 else if a == 191 then 0x90 else 0

abbrev start : Batch ℕ
start = new_batch 2 (λ i. (none, 0)) (λ i. none)

abbrev or_start : Option (Batch ℕ) → Batch ℕ
or_start none = start
or_start (some b) = b

abbrev taken : Option (Batch ℕ × Ptr × Bool) → Batch ℕ
taken none = start
taken (some (b, mem', pending)) = b

abbrev keyed : Batch ℕ
keyed = or_start (set_key 7 0 start)

abbrev after_one : Batch ℕ
after_one = taken (decrypt_scrambled plain 0 keyed mem)

abbrev after_two : Batch ℕ
after_two = taken (decrypt_scrambled plain 188 after_one mem)

two_packets : after_two.batch_count ≡ 2
unfolding decrypt_scrambled set_key
two_packets = refl

second_entry : after_two.ts 1 ≡ some 188
unfolding decrypt_scrambled set_key
second_entry = refl

first_taken : decrypt_scrambled plain 0 keyed mem ≡ some (after_one, mem, true)
unfolding decrypt_scrambled set_key
first_taken = refl

second_taken : decrypt_scrambled plain 188 after_one mem ≡ some (after_two, mem, true)
unfolding decrypt_scrambled set_key
second_taken = refl

key_taken : set_key 7 0 start ≡ some keyed
unfolding set_key
key_taken = refl

two_reached : Reach plain start after_two
two_reached =
    scrambled 188 mem mem true (scrambled 0 mem mem true (key 7 0 here key_taken) first_taken)
      second_taken

Reach-IsBounded_example :
    IsBounded after_two
    × ((b' : Batch ℕ) × (mem' : Ptr) × (pending : Bool) × (decrypt_scrambled plain 188 after_two mem
          ≡ some (b', mem', pending))
        × IsBounded b')
    × ((k parity : ℕ)
        → ((b' : Batch ℕ) × (parity < 2) × (set_key k parity after_two ≡ some b') × IsBounded b')
          ⊎ ((2 ≤ parity) × (set_key k parity after_two ≡ none)))
Reach-IsBounded_example =
    Reach-IsBounded plain 2 (λ i. (none, 0)) (λ i. none) after_two 188 mem (omega arith) two_reached

two_packets-IsBounded : IsBounded after_two
two_packets-IsBounded =
    (Reach-IsBounded plain 2 (λ i. (none, 0)) (λ i. none) after_two 188 mem (omega arith)
      two_reached).0

abbrev decrypted : Option (Batch ℕ × Ptr) → Batch ℕ × Ptr
decrypted none = (start, mem)
decrypted (some r) = r

both_decrypted :
    decrypt_batch plain after_two mem
    ≡ some (
      (decrypted (decrypt_batch plain after_two mem)).0,
      (decrypted (decrypt_batch plain after_two mem)).1,
    )
unfolding decrypt_batch decrypt_scrambled set_key
both_decrypted = refl

decrypt_batch-clear_example : (decrypted (decrypt_batch plain after_two mem)).1 191 < 64
decrypt_batch-clear_example =
    decrypt_batch-clear plain after_two (decrypted (decrypt_batch plain after_two mem)).0 mem
      (decrypted (decrypt_batch plain after_two mem)).1 1 188 two_packets-IsBounded
      (omega (arith, two_packets)) second_entry both_decrypted
