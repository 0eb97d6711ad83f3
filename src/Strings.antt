-- ===== src/Strings.antt =====
-- What the program uses of Go's `strings`, on texts as lists of code points.
pub mod HostPort
pub mod Laws
pub mod Decimal
pub mod Parts
pub mod Trims
use attachcloudip.Common.{
  ℕ, Bool, true, false, ◌&&◌, ◌||◌, List, [], ◌∷◌, ◌++◌, leb, if◌then◌else◌, nat_beq,
}
use attachcloudip.Common.Text.{Text}

-- The loops of `strings.TrimRight` and `strings.TrimLeft`, over a test of one character.
unfoldable pub cons_trimmed : (ℕ → Bool) → ℕ → Text → Text
cons_trimmed p c [] = if p c then [] else c ∷ []
cons_trimmed p c (d ∷ s) = c ∷ d ∷ s

unfoldable pub trim_right_func : (ℕ → Bool) → Text → Text
unfolding cons_trimmed
trim_right_func p [] = []
trim_right_func p (c ∷ s) = cons_trimmed p c (trim_right_func p s)

unfoldable pub trim_left_func : (ℕ → Bool) → Text → Text
trim_left_func p [] = []
trim_left_func p (c ∷ s) = if p c then trim_left_func p s else c ∷ s

-- `strings.TrimRight(s, "/")`
unfoldable pub trim_right : Text → ℕ → Text
unfolding trim_right_func
trim_right s cut = trim_right_func (λ c. nat_beq c cut) s

-- `unicode.IsSpace`
unfoldable pub is_space : ℕ → Bool
is_space c =
    (leb 9 c && leb c 13)
    || nat_beq c 32
    || nat_beq c 0x85
    || nat_beq c 0xa0
    || nat_beq c 0x1680
    || (leb 0x2000 c && leb c 0x200a)
    || nat_beq c 0x2028
    || nat_beq c 0x2029
    || nat_beq c 0x202f
    || nat_beq c 0x205f
    || nat_beq c 0x3000

-- `strings.TrimSpace`
unfoldable pub trim_space : Text → Text
unfolding trim_left_func trim_right_func is_space
trim_space s = trim_left_func is_space (trim_right_func is_space s)

unfoldable pub has_prefix : Text → Text → Bool
has_prefix s [] = true
has_prefix [] (d ∷ t) = false
has_prefix (c ∷ s) (d ∷ t) = nat_beq c d && has_prefix s t
