-- ===== src/Strings/Parts.antt =====
-- `strings.Split` at one character, and `strings.ReplaceAll` of one by nothing.
use attachcloudip.Common.{
  ℕ, ◌≡◌, ◌≢◌, refl, List, [], ◌∷◌, ◌++◌, if◌then◌else◌, nat_beq, nat_beq_iff, All, arith,
  Bool-cases, inl, inr,
}
use attachcloudip.Common.Text.{Text}

-- A character goes to the front of the first part.
unfoldable pub cons_first : ℕ → List Text → List Text
cons_first c [] = (c ∷ []) ∷ []
cons_first c (part ∷ parts) = (c ∷ part) ∷ parts

unfoldable pub split : Text → ℕ → List Text
unfolding cons_first
split [] sep = [] ∷ []
split (c ∷ s) sep =
    let parts = split s sep in if nat_beq c sep then [] ∷ parts else cons_first c parts

unfoldable pub remove_all : ℕ → Text → Text
remove_all c [] = []
remove_all c (d ∷ s) = if nat_beq d c then remove_all c s else d ∷ remove_all c s

abbrev pub Lacks : ℕ → Text → Type 0
Lacks c = All (λ d. d ≢ c)

split-Lacks : (s : Text) (sep : ℕ) → Lacks sep s → split s sep ≡ s ∷ []
unfolding split
split-Lacks [] sep h = refl
split-Lacks (c ∷ s) sep h = ground (arith, split-Lacks s sep h.1)

-- A text with one separator is cut into the two texts around it.
pub split_two :
    (s t : Text) (sep : ℕ) → Lacks sep s → Lacks sep t → split (s ++ sep ∷ t) sep ≡ s ∷ t ∷ []
unfolding split
split_two [] t sep h k = ground (arith, split-Lacks t sep k)
split_two (c ∷ s) t sep h k = ground (arith, split_two s t sep h.1 k)

pub remove_all_id : (c : ℕ) (s : Text) → Lacks c s → remove_all c s ≡ s
unfolding remove_all
remove_all_id c [] h = refl
remove_all_id c (d ∷ s) h = ground (arith, remove_all_id c s h.1)

pub remove_all-Lacks : (c : ℕ) (s : Text) → Lacks c (remove_all c s)
unfolding remove_all
remove_all-Lacks c [] = tt
remove_all-Lacks c (d ∷ s) = ground (arith, remove_all-Lacks c s)

cons_first-Lacks :
    (c sep : ℕ) (parts : List Text)
    → c ≢ sep
    → All (Lacks sep) parts
    → All (Lacks sep) (cons_first c parts)
unfolding cons_first
cons_first-Lacks c sep [] n h = ((n, tt), tt)
cons_first-Lacks c sep (part ∷ parts) n h = ((n, h.0), h.1)

-- The parts lack the separator.
pub split-All : (s : Text) (sep : ℕ) → All (Lacks sep) (split s sep)
unfolding split
split-All [] sep = (tt, tt)
split-All (c ∷ s) sep = elim (Bool-cases (nat_beq c sep)) [
  | inl h ↦ rw (h, split) (tt, split-All s sep)
  | inr h ↦
      rw (h, split)
        (cons_first-Lacks c sep (split s sep) (ground (arith, h, nat_beq_iff c sep))
          (split-All s sep))
]
