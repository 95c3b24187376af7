-- ===== src/Sdt/Names.antt =====
-- The names of src/mpegts/SDT.cpp in UTF-8, against a reader of UTF-8.
use satpi.Base.{
  Option, none, some, leb, le→leb, ◌&&◌, ℕ, zero, suc, ◌+◌, ◌-◌, ◌*◌, ◌/◌, ◌%◌, ◌≤◌, ◌<◌, ◌≡◌, refl,
  ap, ◌∙◌, arith, true, false, if◌then◌else◌, ltb, ◌==◌, List, [], ◌∷◌, ◌++◌, Ptr, slice,
  Bool-cases, lt→ltb, le→ltb, inl, inr,
}
use satpi.Sdt.{utf8_of, utf8_loop, name_offset, copy_to_utf8}

abbrev map : {A B : Type 0} → (A → B) → Option A → Option B
map f none = none
map f (some a) = some (f a)

-- The code points below 0x800 of a text in UTF-8: a byte below 0x80 by itself, any other of two
-- bytes, with their markers 110 and 10 and more than 7 bits. Anything else is not such a text.
unfoldable pub decode_utf8 : List ℕ → Option (List ℕ)
decode_utf8 [] = some []
decode_utf8 (b ∷ []) = if ltb b 0x80 then some (b ∷ []) else none
decode_utf8 (b ∷ c ∷ bytes) =
    let one = decode_utf8 (c ∷ bytes) in
    let two = decode_utf8 bytes in
    if ltb b 0x80
    then map (◌∷◌ b) one
    else if leb 0xc2 b && ltb b 0xe0 && leb 0x80 c && ltb c 0xc0
    then map (◌∷◌ ((b - 0xc0) * 64 + (c - 0x80))) two
    else none

-- The text of a name: a first byte below 0x20 chooses the table of characters, and with 0x10 so does
-- the byte behind it.
unfoldable pub text_of : List ℕ → List ℕ
text_of [] = []
text_of (c ∷ []) = if ltb c 0x20 then [] else c ∷ []
text_of (c ∷ d ∷ name) = if c == 0x10 then name else if ltb c 0x20 then d ∷ name else c ∷ d ∷ name

high_of : (c : ℕ) → (c / 128 % 2 == 1) ≡ true → 128 ≤ c
high_of c e = ground arith

low_of : (c : ℕ) → (c / 128 % 2 == 1) ≡ false → c < 256 → c < 128
low_of c e byte = ground arith

decode_low :
    (c : ℕ) (bytes : List ℕ) → c < 128 → decode_utf8 (c ∷ bytes) ≡ map (◌∷◌ c) (decode_utf8 bytes)
unfolding decode_utf8
decode_low c [] low = rw (lt→ltb c 128 low) refl
decode_low c (d ∷ bytes) low = rw (lt→ltb c 128 low) refl

decode_high :
    (c : ℕ) (bytes : List ℕ)
    → 128 ≤ c
    → c < 256
    → decode_utf8 ((0xc0 + c / 64) ∷ (0x80 + c % 64) ∷ bytes) ≡ map (◌∷◌ c) (decode_utf8 bytes)
unfolding decode_utf8
decode_high c bytes high byte =
    rw
      (
        le→ltb (0xc0 + c / 64) 0x80 (omega arith),
        le→leb 0xc2 (0xc0 + c / 64) (omega (arith, high)),
        lt→ltb (0xc0 + c / 64) 0xe0 (omega (arith, byte)),
        le→leb 0x80 (0x80 + c % 64) (omega arith),
        lt→ltb (0x80 + c % 64) 0xc0 (omega arith),
      )
      (ap (λ (x : ℕ). map (◌∷◌ x) (decode_utf8 bytes)) (omega (arith, high, byte)))

decode_utf8_of :
    (c : ℕ) (bytes : List ℕ)
    → c < 256
    → decode_utf8 (utf8_of c ++ bytes) ≡ map (◌∷◌ c) (decode_utf8 bytes)
decode_utf8_of c bytes byte = elim (Bool-cases (c / 128 % 2 == 1)) [
  | inl e ↦ rw e (decode_high c bytes (high_of c e) byte)
  | inr e ↦ rw e (decode_low c bytes (low_of c e byte))
]

decode_utf8-utf8_loop :
    (p : Ptr) (i n : ℕ) → ((k : ℕ) → p k < 256) → decode_utf8 (utf8_loop p i n) ≡ some (slice p i n)
unfolding decode_utf8 utf8_loop slice
decode_utf8-utf8_loop p i zero byte = refl
decode_utf8-utf8_loop p i (suc n) byte =
    decode_utf8_of (p i) (utf8_loop p (suc i) n) (byte i)
    ∙ ap (map (◌∷◌ (p i))) (decode_utf8-utf8_loop p (suc i) n byte)

-- What the copy skips is what stands before the text.
text_of-slice :
    (p : Ptr) (len : ℕ) → slice p (name_offset p) (len - name_offset p) ≡ text_of (slice p 0 len)
unfolding text_of slice
text_of-slice p zero = ground arith
text_of-slice p (suc zero) = ground arith
text_of-slice p (suc (suc n)) = ground arith

-- Read as UTF-8 by a strict reader, a name of bytes that is copied is a text whose code points are the
-- bytes of the name, less a first byte below 0x20, and less the byte behind it if that is 0x10.
pub decode_utf8-copy_to_utf8 :
    (p : Ptr) (len : ℕ)
    → ((k : ℕ) → p k < 256)
    → decode_utf8 (copy_to_utf8 p len) ≡ some (text_of (slice p 0 len))
unfolding copy_to_utf8
decode_utf8-copy_to_utf8 p len byte =
    decode_utf8-utf8_loop p (name_offset p) (len - name_offset p) byte
    ∙ ap some (text_of-slice p len)
