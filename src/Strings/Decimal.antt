-- ===== src/Strings/Decimal.antt =====
-- The verb `%d` of `fmt.Sprintf`, at a number that is not negative.
use mathlib.Core.Logic.{dite}
use mathlib.Core.WellFounded.{Acc}
use native.Mathlib.Decide.{dec_lt}
use attachcloudip.Common.{
  ℕ, zero, suc, ◌+◌, ◌-◌, ◌*◌, ◌/◌, ◌%◌, ◌≤◌, ◌<◌, ◌≡◌, ◌≢◌, refl, [], ◌∷◌, ◌++◌, arith, All,
  All-append,
}
use attachcloudip.Common.Text.{Text}

Acc-lt : (k n : ℕ) → n < k → Acc ◌<◌ n
Acc-lt zero n h = absurd (omega arith)
Acc-lt (suc k) n h = Acc.intro n (λ m lt. Acc-lt k m (omega arith))

every_acc : (n : ℕ) → Acc ◌<◌ n
unfolding Acc-lt
every_acc n = Acc-lt (suc n) n (omega arith)

pub tenth-lt : (n : ℕ) → (n < 10 → ⊥) → n / 10 < n
tenth-lt n h = omega arith

-- The digits of the tenth part, and the last digit.
digits : (n : ℕ) → Acc ◌<◌ n → Text
digits n (Acc.intro _ smaller) =
    dite (dec_lt n 10) (λ _. (b'0' + n) ∷ [])
      (λ more. digits (n / 10) (smaller (n / 10) (tenth-lt n more)) ++ (b'0' + n % 10) ∷ [])

unfoldable pub decimal : ℕ → Text
unfolding digits every_acc dec_lt
decimal n = digits n (every_acc n)

abbrev pub IsDigit : ℕ → Type 0
IsDigit c = (b'0' ≤ c) × (c ≤ b'9')

digits-All : (n : ℕ) (a : Acc ◌<◌ n) → All IsDigit (digits n a)
unfolding digits
digits-All n (Acc.intro _ smaller) =
    elim (dec_lt n 10)
      as (λ d. All IsDigit (
        dite d (λ _. (b'0' + n) ∷ [])
          (λ more. digits (n / 10) (smaller (n / 10) (tenth-lt n more)) ++ (b'0' + n % 10) ∷ []))) [
            | yes few ↦ ((omega arith, omega arith), tt)
            | no many ↦
                All-append IsDigit _ _ (digits-All (n / 10) (smaller (n / 10) (tenth-lt n many)))
                  ((omega arith, omega arith), tt)
          ]

decimal-All : (n : ℕ) → All IsDigit (decimal n)
unfolding decimal
decimal-All n = digits-All n (every_acc n)

-- The number that digits spell after `acc`.
abbrev pub value : ℕ → Text → ℕ
value acc [] = acc
value acc (c ∷ s) = value (acc * 10 + (c - b'0')) s

value-snoc : (acc : ℕ) (s : Text) (c : ℕ) → value acc (s ++ c ∷ []) ≡ value acc s * 10 + (c - b'0')
value-snoc acc [] c = refl
value-snoc acc (d ∷ s) c = value-snoc (acc * 10 + (d - b'0')) s c

value-digits : (n : ℕ) (a : Acc ◌<◌ n) → value 0 (digits n a) ≡ n
unfolding digits
value-digits n (Acc.intro _ smaller) =
    elim (dec_lt n 10)
      as (λ d.
        value 0 (
          dite d (λ _. (b'0' + n) ∷ [])
            (λ more. digits (n / 10) (smaller (n / 10) (tenth-lt n more)) ++ (b'0' + n % 10) ∷ []))
        ≡ n) [
          | yes few ↦ omega arith
          | no many ↦ omega (
            arith,
            value-snoc 0 (digits (n / 10) (smaller (n / 10) (tenth-lt n many))) (b'0' + n % 10),
            value-digits (n / 10) (smaller (n / 10) (tenth-lt n many)),
          )
        ]

-- A number is read back from its print.
pub value-decimal : (n : ℕ) → value 0 (decimal n) ≡ n
unfolding decimal
value-decimal n = value-digits n (every_acc n)

digits-lacks : (c : ℕ) (s : Text) → (IsDigit c → ⊥) → All IsDigit s → All (λ d. d ≢ c) s
digits-lacks c [] n h = tt
digits-lacks c (d ∷ s) n h = (λ e. n (rw (← e) h.0), digits-lacks c s n h.1)

pub decimal-lacks : (c n : ℕ) → (IsDigit c → ⊥) → All (λ d. d ≢ c) (decimal n)
decimal-lacks c n h = digits-lacks c (decimal n) h (decimal-All n)
