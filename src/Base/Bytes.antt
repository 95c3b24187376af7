-- ===== src/Base/Bytes.antt =====
-- Memory as the code sees it: a pointer is read at an offset, and a run of bytes is a list.
use Prim.Native.Nat.{ℕ, zero, suc, ◌+◌, ◌-◌, ◌/◌, ◌%◌, ◌^◌, ◌<◌}
use mathlib.Core.Path.{◌≡◌, refl, ap, ap₂}
use mathlib.Core.Bool.{Bool, ◌&&◌}
use mathlib.Core.List.{List, [], ◌∷◌, ◌++◌}
use mathlib.Core.Option.{Option, none, some}
use native.Mathlib.Omega.{arith}
use native.Mathlib.Nat.{suc-add, add-suc, add-zero, zero-add}
use satpi.Base.Tests.{◌==◌, ltb, leb, if◌then◌else◌}
use satpi.Base.Lists.{length, get_or}

-- `const unsigned char *`: the byte at each offset.
abbrev pub Ptr : Type 0
Ptr = ℕ → ℕ

abbrev pub u8 : ℕ → ℕ
u8 n = n % 2 ^ 8

abbrev pub u16 : ℕ → ℕ
u16 n = n % 2 ^ 16

abbrev pub u32 : ℕ → ℕ
u32 n = n % 2 ^ 32

abbrev pub u64 : ℕ → ℕ
u64 n = n % 2 ^ 64

-- `a - b` of unsigned 64-bit numbers.
abbrev pub sub64 : ℕ → ℕ → ℕ
sub64 a b = u64 (a + 2 ^ 64 - b)

-- `x & (1 << k)` as a test.
abbrev pub has_bit : ℕ → ℕ → Bool
has_bit x k = x / 2 ^ k % 2 == 1

abbrev pub offset : Ptr → ℕ → Ptr
offset p k i = p (k + i)

-- The `n` bytes from `start` on.
unfoldable pub slice : Ptr → ℕ → ℕ → List ℕ
slice p start zero = []
slice p start (suc n) = p start ∷ slice p (suc start) n

-- `c_str()` of a byte string; the byte behind the last is 0.
abbrev pub c_str : List ℕ → Ptr
c_str bytes i = get_or bytes i 0

-- `memmove(to, from, n)`, the two given as offsets into one array.
abbrev pub memmove : ℕ → ℕ → ℕ → Ptr → Ptr
memmove to from n p i = if leb to i && ltb i (to + n) then p (from + i - to) else p i

-- `s[i]` of a byte string: the string ends with a 0, and what is behind that may not be read.
abbrev pub read : List ℕ → ℕ → Option ℕ
read bytes i = if leb i (length bytes) then some (get_or bytes i 0) else none

infixl 5 ◌>>=◌
abbrev pub ◌>>=◌ {ℓ κ} : {A : Type ℓ} {B : Type κ} → Option A → (A → Option B) → Option B
none >>= f = none
some a >>= f = f a

pub length-slice : (p : Ptr) (start n : ℕ) → length (slice p start n) ≡ n
unfolding slice
length-slice p start zero = refl
length-slice p start (suc n) = ap suc (length-slice p (suc start) n)

pub slice_split :
    (p : Ptr) (start n m : ℕ) → slice p start (n + m) ≡ slice p start n ++ slice p (start + n) m
unfolding slice
slice_split p start zero m = rw (zero-add m, add-zero start)
slice_split p start (suc n) m =
    rw (suc-add n m, add-suc start n, ← suc-add start n)
      (ap (◌∷◌ (p start)) (slice_split p (suc start) n m))

-- Two stretches with the same bytes.
pub slice_ext :
    (p q : Ptr) (i j n : ℕ) → ((k : ℕ) → k < n → p (i + k) ≡ q (j + k)) → slice p i n ≡ slice q j n
unfolding slice
slice_ext p q i j zero same = refl
slice_ext p q i j (suc n) same = ap₂ ◌∷◌ (rw (add-zero i, add-zero j) at (same 0 (omega arith))) (
    slice_ext p q (suc i) (suc j) n (λ k h.
      rw (suc-add i k, suc-add j k, ← add-suc i k, ← add-suc j k) (same (suc k) (omega arith))))
