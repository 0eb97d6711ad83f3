-- ===== src/Strings/Laws.antt =====
-- Laws of the trims and of prefixes.
use attachcloudip.Common.{
  ap, ◌∙◌, ℕ, Bool, true, false, [], ◌∷◌, ◌++◌, ◌≡◌, ◌↔◌, refl, sym, arith, append-nil,
  append_assoc, All,
}
use attachcloudip.Common.Text.{Text}
use attachcloudip.Strings.{
  is_space, trim_space, cons_trimmed, trim_right_func, trim_left_func, has_prefix,
}

-- The last character of a text does not pass the test.
abbrev pub EndsOutside : (ℕ → Bool) → Text → Type 0
EndsOutside p [] = Unit
EndsOutside p (c ∷ []) = p c ≡ false
EndsOutside p (c ∷ d ∷ s) = EndsOutside p (d ∷ s)

-- Nor does the first.
abbrev pub StartsOutside : (ℕ → Bool) → Text → Type 0
StartsOutside p [] = Unit
StartsOutside p (c ∷ s) = p c ≡ false

module _ (p : ℕ → Bool) where
  cons_trimmed-EndsOutside :
      (c : ℕ) (s : Text) → EndsOutside p s → EndsOutside p (cons_trimmed p c s)
  unfolding cons_trimmed
  cons_trimmed-EndsOutside c [] h = ground arith
  cons_trimmed-EndsOutside c (d ∷ s) h = h

  pub trim_right_func-EndsOutside : (s : Text) → EndsOutside p (trim_right_func p s)
  unfolding trim_right_func
  trim_right_func-EndsOutside [] = tt
  trim_right_func-EndsOutside (c ∷ s) =
      cons_trimmed-EndsOutside c (trim_right_func p s) (trim_right_func-EndsOutside s)

  -- A text that ends outside the cut set is left as it is.
  pub trim_right_func_id : (s : Text) → EndsOutside p s → trim_right_func p s ≡ s
  unfolding trim_right_func
  trim_right_func_id [] h = refl
  trim_right_func_id (c ∷ []) h = ground arith
  trim_right_func_id (c ∷ d ∷ s) h = rw (trim_right_func_id (d ∷ s) h)

  -- What the test accepts at the end is cut.
  pub trim_right_func-append :
      (s t : Text) → All (λ c. p c ≡ true) t → trim_right_func p (s ++ t) ≡ trim_right_func p s
  unfolding trim_right_func
  trim_right_func-append [] [] h = refl
  trim_right_func-append [] (c ∷ t) h = ground (arith, trim_right_func-append [] t h.1)
  trim_right_func-append (c ∷ s) t h = rw (trim_right_func-append s t h)

  trim_left_func_id : (s : Text) → StartsOutside p s → trim_left_func p s ≡ s
  unfolding trim_left_func
  trim_left_func_id [] h = refl
  trim_left_func_id (c ∷ s) h = ground arith

  -- A trim on the right keeps the first character, unless nothing is left.
  trim_right_func-StartsOutside :
      (q : ℕ → Bool) (s : Text) → StartsOutside q s → StartsOutside q (trim_right_func p s)
  unfolding trim_right_func
  trim_right_func-StartsOutside q [] h = tt
  trim_right_func-StartsOutside q (c ∷ s) h = cons_case (trim_right_func p s)
    where
      cons_case : (t : Text) → StartsOutside q (cons_trimmed p c t)
      cons_case [] = ground arith
      cons_case (d ∷ t) = h

has_prefix_sound : (s t : Text) → has_prefix s t ≡ true → (rest : Text) × (s ≡ t ++ rest)
unfolding has_prefix
has_prefix_sound s [] h = (s, refl)
has_prefix_sound [] (d ∷ t) h = cc
has_prefix_sound (c ∷ s) (d ∷ t) h =
    let same : c ≡ d = ground arith in
    let (rest, e) = has_prefix_sound s t (ground arith) in (rest, cc)

has_prefix_complete : (t rest : Text) → has_prefix (t ++ rest) t ≡ true
unfolding has_prefix
has_prefix_complete [] rest = refl
has_prefix_complete (d ∷ t) rest = ground (arith, has_prefix_complete t rest)

-- `strings.HasPrefix(s, t)` says whether `s` continues `t`.
pub has_prefix_iff : (s t : Text) → (has_prefix s t ≡ true) ↔ ((rest : Text) × (s ≡ t ++ rest))
has_prefix_iff s t = (has_prefix_sound s t, λ (rest, e). rw e (has_prefix_complete t rest))

pub has_prefix_self : (s : Text) → has_prefix s s ≡ true
has_prefix_self s = (has_prefix_iff s s).1 ([], sym (append-nil s))

pub has_prefix_trans :
    (s t u : Text) → has_prefix s t ≡ true → has_prefix t u ≡ true → has_prefix s u ≡ true
has_prefix_trans s t u h k =
    let (a, e) = (has_prefix_iff s t).0 h in
    let (b, f) = (has_prefix_iff t u).0 k in
    (has_prefix_iff s u).1 (b ++ a, rw (e, f) (append_assoc u b a))

-- What ends outside the cut set does so after any text.
pub EndsOutside-append :
    (p : ℕ → Bool) (s : Text) (c : ℕ) (t : Text)
    → EndsOutside p (c ∷ t)
    → EndsOutside p (s ++ c ∷ t)
EndsOutside-append p [] c t h = h
EndsOutside-append p (d ∷ []) c t h = h
EndsOutside-append p (d ∷ e ∷ s) c t h = EndsOutside-append p (e ∷ s) c t h

-- A text without space at its ends.
pub record IsTrimmed (s : Text) : Type 0 where
  pub starts : StartsOutside is_space s
  pub ends : EndsOutside is_space s

pub trim_space_id : (s : Text) → IsTrimmed s → trim_space s ≡ s
unfolding trim_space
trim_space_id s h =
    rw (trim_right_func_id is_space s h.ends) (trim_left_func_id is_space s h.starts)

-- `strings.TrimSpace` takes the end of a line off.
pub trim_space-line : (s : Text) → trim_space (s ++ 10 ∷ []) ≡ trim_space s
unfolding trim_space is_space
trim_space-line s =
    ap (trim_left_func is_space) (trim_right_func-append is_space s (10 ∷ []) (refl, tt))

pub trim_space-newline : (s : Text) → IsTrimmed s → trim_space (s ++ 10 ∷ []) ≡ s
trim_space-newline s h = trim_space-line s ∙ trim_space_id s h
