-- ===== src/Base/Words.antt =====
-- Little-endian words (`encoding/binary`) and 64-bit arithmetic. A Go `int` is kept as its 64-bit
-- pattern, so that a negative number is a pattern of at least `int_min`.
use Prim.Native.Nat.{ℕ, zero, suc, ◌+◌, ◌*◌, ◌/◌, ◌%◌, ◌^◌, ◌<◌}
use mathlib.Core.Path.{◌≡◌, refl, ap}
use mathlib.Core.Bool.{Bool}
use mathlib.Core.List.{[], ◌∷◌}
use native.Mathlib.Omega.{arith}
use acra.Base.Tests.{ltb}
use acra.Base.Lists.{Bytes, length}

abbrev pub word_mod : ℕ
word_mod = 2 ^ 64

abbrev pub int_min : ℕ
int_min = 2 ^ 63

-- the sign of the `int` that a pattern stands for
abbrev pub is_negative : ℕ → Bool
is_negative x = ltb 0x7fffffffffffffff x

-- 256 ^ k
abbrev pub room : ℕ → ℕ
room zero = 1
room (suc k) = 256 * room k

-- `binary.LittleEndian.PutUint…` for k bytes
abbrev pub le_bytes : ℕ → ℕ → Bytes
le_bytes zero n = []
le_bytes (suc k) n = (n % 256) ∷ le_bytes k (n / 256)

-- `binary.LittleEndian.Uint…`
abbrev pub le_value : Bytes → ℕ
le_value [] = 0
le_value (b ∷ bs) = b + 256 * le_value bs

pub length-le_bytes : (k n : ℕ) → length (le_bytes k n) ≡ k
length-le_bytes zero n = refl
length-le_bytes (suc k) n = ap suc (length-le_bytes k (n / 256))

pub le_value-le_bytes : (k n : ℕ) → n < room k → le_value (le_bytes k n) ≡ n
le_value-le_bytes zero n h = omega arith
le_value-le_bytes (suc k) n h = omega (arith, le_value-le_bytes k (n / 256) (omega arith))

-- What the proofs about byte strings hold for: every element is below 256.
abbrev pub IsBytes : Bytes → Type 0
IsBytes [] = Unit
IsBytes (b ∷ bs) = (b < 256) × IsBytes bs

pub le_value_bound : (bs : Bytes) → IsBytes bs → le_value bs < room (length bs)
le_value_bound [] h = omega arith
le_value_bound (b ∷ bs) (h, t) = omega (arith, le_value_bound bs t)
