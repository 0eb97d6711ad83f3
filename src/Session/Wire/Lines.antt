-- ===== src/Session/Wire/Lines.antt =====
-- Lines on a connection of cmd/client/main.go and cmd/server/tcpmanager.go.
use attachcloudip.Common.{
  ℕ, suc, ◌≡◌, ◌≢◌, refl, sym, ap, ◌∙◌, List, [], ◌∷◌, ◌++◌, append_assoc, take, drop, concat,
  take-append-drop, nat_eq,
}
use attachcloudip.Common.Text.{Text, text_eq}
use attachcloudip.Strings.Parts.{Lacks}
use attachcloudip.TcpManager.{newline}

-- A text that ends with its only line break.
pub record IsLine (t : Text) : Type 0 where
  pub start : Text
  pub ends : t ≡ start ++ newline ∷ []
  pub one : Lacks newline start

-- What a read gives is one line, unless it waits.
abbrev pub IsLineOrNone : Text → Type 0
IsLineOrNone [] = Unit
IsLineOrNone (c ∷ t) = IsLine (c ∷ t)

start_unique :
    (u v r t : Text)
    → Lacks newline u
    → Lacks newline v
    → u ++ newline ∷ r ≡ v ++ newline ∷ t
    → (u ≡ v) × (r ≡ t)
start_unique [] [] r t h k e = (refl, cc)
start_unique [] (d ∷ v) r t h k e = absurd (k.0 (cc))
start_unique (c ∷ u) [] r t h k e = absurd (h.0 (cc))
start_unique (c ∷ u) (d ∷ v) r t h k e =
    let (same, rest) = start_unique u v r t h.1 k.1 (cc) in (cc, rest)

line_unique : (x y r t : Text) → IsLine x → IsLine y → x ++ r ≡ y ++ t → (x ≡ y) × (r ≡ t)
line_unique x y r t h k e =
    let (same, rest) = start_unique h.start k.start r t h.one k.one (
      sym (append_assoc h.start (newline ∷ []) r)
      ∙ ap (λ z. z ++ r) (sym h.ends)
      ∙ e
      ∙ ap (λ z. z ++ t) k.ends
      ∙ append_assoc k.start (newline ∷ []) t) in
    (h.ends ∙ ap (λ z. z ++ newline ∷ []) same ∙ sym k.ends, rest)

pub line_filled : (x : Text) → IsLine x → x ≢ []
line_filled x h e = snoc_filled h.start (sym h.ends ∙ e)
  where
    snoc_filled : (u : Text) → u ++ newline ∷ [] ≢ []
    snoc_filled [] f = cc
    snoc_filled (c ∷ u) f = cc

-- A read that gives a line gives the first one.
pub take_line :
    (k : ℕ) (x : Text) (xs : List Text)
    → IsLine x
    → IsLineOrNone (take (suc k) (x ++ concat xs))
    → (take (suc k) (x ++ concat xs) ≡ x) × (drop (suc k) (x ++ concat xs) ≡ concat xs)
take_line k [] xs h c = absurd (line_filled [] h refl)
take_line k (d ∷ x) xs h c =
    line_unique (take (suc k) (d ∷ (x ++ concat xs))) (d ∷ x) (drop (suc k) (d ∷ (x ++ concat xs)))
      (concat xs) c h (take-append-drop (suc k) (d ∷ (x ++ concat xs)))
