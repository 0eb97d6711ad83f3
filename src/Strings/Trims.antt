-- ===== src/Strings/Trims.antt =====
-- What lacks a character still lacks it after a trim or a removal.
use attachcloudip.Common.{ℕ, Bool, ◌≢◌, [], ◌∷◌, nat_beq, Bool-cases, inl, inr}
use attachcloudip.Common.Text.{Text}
use attachcloudip.Strings.{cons_trimmed, trim_right_func, trim_left_func, trim_space, is_space}
use attachcloudip.Strings.Parts.{Lacks, remove_all}

cons_trimmed-Lacks :
    (p : ℕ → Bool) (sep c : ℕ) (s : Text) → c ≢ sep → Lacks sep s → Lacks sep (cons_trimmed p c s)
unfolding cons_trimmed
cons_trimmed-Lacks p sep c [] n h = elim (Bool-cases (p c)) [
  | inl e ↦ rw (e, cons_trimmed) tt
  | inr e ↦ rw (e, cons_trimmed) (n, tt)
]
cons_trimmed-Lacks p sep c (d ∷ s) n h = (n, h)

trim_right_func-Lacks :
    (p : ℕ → Bool) (sep : ℕ) (s : Text) → Lacks sep s → Lacks sep (trim_right_func p s)
unfolding trim_right_func
trim_right_func-Lacks p sep [] h = tt
trim_right_func-Lacks p sep (c ∷ s) h =
    cons_trimmed-Lacks p sep c (trim_right_func p s) h.0 (trim_right_func-Lacks p sep s h.1)

trim_left_func-Lacks :
    (p : ℕ → Bool) (sep : ℕ) (s : Text) → Lacks sep s → Lacks sep (trim_left_func p s)
unfolding trim_left_func
trim_left_func-Lacks p sep [] h = tt
trim_left_func-Lacks p sep (c ∷ s) h = elim (Bool-cases (p c)) [
  | inl e ↦ rw (e, trim_left_func) (trim_left_func-Lacks p sep s h.1)
  | inr e ↦ rw (e, trim_left_func) h
]

-- Nor does a trim bring it back.
pub trim_space-Lacks : (sep : ℕ) (s : Text) → Lacks sep s → Lacks sep (trim_space s)
unfolding trim_space
trim_space-Lacks sep s h =
    trim_left_func-Lacks is_space sep (trim_right_func is_space s)
      (trim_right_func-Lacks is_space sep s h)

pub remove_all-keeps : (c sep : ℕ) (s : Text) → Lacks sep s → Lacks sep (remove_all c s)
unfolding remove_all
remove_all-keeps c sep [] h = tt
remove_all-keeps c sep (d ∷ s) h = elim (Bool-cases (nat_beq d c)) [
  | inl e ↦ rw (e, remove_all) (remove_all-keeps c sep s h.1)
  | inr e ↦ rw (e, remove_all) (h.0, remove_all-keeps c sep s h.1)
]
