-- ===== src/Base/Word.antt =====
-- Machine words as bit patterns: their signed reading, wrapping, truncation and extension.
use Prim.Native.Nat.{ℕ, ◌-◌, ◌*◌, ◌%◌, ◌^◌, ◌<◌}
use mathlib.Core.Path.{◌≡◌}
use native.Mathlib.Omega.{arith}
use cs_562_jvm.Base.Tests.{ltb, if◌then◌else◌}
use cs_562_jvm.Base.Int.{ℤ, pos, negsuc}

-- The number that the pattern `w` of a type with half range `h` (2 ^ (bits - 1)) stands for.
abbrev pub signed : ℕ → ℕ → ℤ
signed h w = if ltb w h then pos w else negsuc (2 * h - w - 1)

-- The pattern of an integer, wrapped to 2 * h.
abbrev pub wrap : ℕ → ℤ → ℕ
wrap h (pos n) = n % (2 * h)
wrap h (negsuc n) = 2 * h - 1 - n % (2 * h)

abbrev pub half8 : ℕ
half8 = 2 ^ 7

abbrev pub half16 : ℕ
half16 = 2 ^ 15

abbrev pub half32 : ℕ
half32 = 2 ^ 31

abbrev pub half64 : ℕ
half64 = 2 ^ 63

abbrev pub signed8 : ℕ → ℤ
signed8 = signed half8

abbrev pub signed16 : ℕ → ℤ
signed16 = signed half16

abbrev pub signed32 : ℕ → ℤ
signed32 = signed half32

abbrev pub signed64 : ℕ → ℤ
signed64 = signed half64

abbrev pub wrap32 : ℤ → ℕ
wrap32 = wrap half32

abbrev pub wrap64 : ℤ → ℕ
wrap64 = wrap half64

pub wrap32-lt : (z : ℤ) → wrap32 z < 2 ^ 32
wrap32-lt (pos n) = omega arith
wrap32-lt (negsuc n) = omega arith

pub wrap64-lt : (z : ℤ) → wrap64 z < 2 ^ 64
wrap64-lt (pos n) = omega arith
wrap64-lt (negsuc n) = omega arith

pub wrap32-signed32 : (w : ℕ) → w < 2 ^ 32 → wrap32 (signed32 w) ≡ w
wrap32-signed32 w h = ground arith

pub wrap64-signed64 : (w : ℕ) → w < 2 ^ 64 → wrap64 (signed64 w) ≡ w
wrap64-signed64 w h = ground arith
