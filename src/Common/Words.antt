-- ===== src/Common/Words.antt =====
-- Go's `int` and `time.Duration`: 64-bit words in two's complement. A word from 2 ^ 63 on stands for a
-- negative number.
use Prim.Native.Nat.{ℕ, ◌+◌, ◌-◌, ◌*◌, ◌%◌, ◌^◌, ◌<◌, min}
use mathlib.Core.Bool.{Bool}
use mathlib.Core.Path.{◌≡◌}
use native.Mathlib.Omega.{arith}
use attachcloudip.Common.Tests.{ltb, leb, if◌then◌else◌}

abbrev pub word_size : ℕ
word_size = 2 ^ 64

abbrev pub sign_bit : ℕ
sign_bit = 2 ^ 63

-- `x++`
unfoldable pub increment : ℕ → ℕ
increment x = (x + 1) % word_size

-- `x--`
unfoldable pub decrement : ℕ → ℕ
decrement x = (x + word_size - 1) % word_size

-- `x * 2`
unfoldable pub double : ℕ → ℕ
double x = (x * 2) % word_size

-- `x > y`, as signed numbers
unfoldable pub greater : ℕ → ℕ → Bool
greater x y = ltb ((y + sign_bit) % word_size) ((x + sign_bit) % word_size)

-- `now.Sub(last)`, for times in nanoseconds: the difference stops at the largest and at the smallest
-- duration.
unfoldable pub sub_time : ℕ → ℕ → ℕ
sub_time now last =
    if leb last now then min (now - last) (sign_bit - 1) else word_size - min (last - now) sign_bit

-- For times and limits that are far from the largest duration, `now.Sub(last) > limit` says that
-- more than `limit` has passed.
pub sub_time-greater :
    (now last limit : ℕ)
    → now < sign_bit
    → last < sign_bit
    → limit < sign_bit
    → greater (sub_time now last) limit ≡ ltb (last + limit) now
unfolding greater sub_time
sub_time-greater now last limit h k l = ground arith

pub increment-decrement : (x : ℕ) → x < word_size → increment (decrement x) ≡ x
unfolding increment decrement
increment-decrement x h = omega arith

pub decrement-increment : (x : ℕ) → x < word_size → decrement (increment x) ≡ x
unfolding increment decrement
decrement-increment x h = omega arith
