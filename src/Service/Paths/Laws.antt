-- ===== src/Service/Paths/Laws.antt =====
-- What `normalizePath` makes of a path.
use attachcloudip.Common.{
  ℕ, Bool, true, false, not, [], ◌∷◌, ◌++◌, ◌≡◌, refl, arith, ◌⊎◌, inl, inr, nat_beq, All,
  if◌then◌else◌,
}
use attachcloudip.Common.Text.{Text}
use attachcloudip.Strings.{cons_trimmed, trim_right, trim_right_func, has_prefix}
use attachcloudip.Strings.Laws.{
  EndsOutside, trim_right_func-EndsOutside, trim_right_func_id, trim_right_func-append,
}
use attachcloudip.Service.Paths.{slash, normalize_path}

abbrev is_slash : ℕ → Bool
is_slash c = nat_beq c slash

-- A path as the service stores it: one slash alone, or a slash first and none at the end.
abbrev pub IsNormal : Text → Type 0
IsNormal p = (p ≡ slash ∷ []) ⊎ ((has_prefix p (slash ∷ []) ≡ true) × EndsOutside is_slash p)

lead : Text → Text
lead t = if not (has_prefix t (slash ∷ [])) then slash ∷ t else t

normalize_path-lead : (p : Text) → normalize_path p ≡ lead (trim_right_func is_slash p)
unfolding normalize_path trim_right lead
normalize_path-lead p = refl

lead-IsNormal : (t : Text) → EndsOutside is_slash t → IsNormal (lead t)
unfolding lead has_prefix
lead-IsNormal [] h = inl refl
lead-IsNormal (c ∷ t) h = ground arith

-- A normalised path is in normal form.
pub normalize_path-IsNormal : (p : Text) → IsNormal (normalize_path p)
normalize_path-IsNormal p =
    rw normalize_path-lead
      (lead-IsNormal (trim_right_func is_slash p) (trim_right_func-EndsOutside is_slash p))

-- A normal form is left as it is.
pub normalize_path_id : (p : Text) → IsNormal p → normalize_path p ≡ p
unfolding lead has_prefix trim_right_func
normalize_path_id p (inl e) = rw (e, normalize_path-lead)
normalize_path_id p (inr (starts, ends)) =
    rw (normalize_path-lead, trim_right_func_id is_slash p ends) (ground arith)

-- Normalising is idempotent, and its results are exactly the normal forms.
normalize_path-normalize_path : (p : Text) → normalize_path (normalize_path p) ≡ normalize_path p
normalize_path-normalize_path p = normalize_path_id (normalize_path p) (normalize_path-IsNormal p)

-- Slashes at the end make no difference.
normalize_path-append :
    (p t : Text) → All (λ c. is_slash c ≡ true) t → normalize_path (p ++ t) ≡ normalize_path p
normalize_path-append p t h =
    rw (normalize_path-lead, normalize_path-lead, trim_right_func-append is_slash p t h)

lead-cons :
    (t : Text) → has_prefix t (slash ∷ []) ≡ false → lead (cons_trimmed is_slash slash t) ≡ lead t
unfolding lead has_prefix cons_trimmed
lead-cons [] h = refl
lead-cons (c ∷ t) h = ground arith

trim_right_func-has_prefix :
    (p : Text)
    → has_prefix p (slash ∷ []) ≡ false
    → has_prefix (trim_right_func is_slash p) (slash ∷ []) ≡ false
unfolding has_prefix trim_right_func cons_trimmed
trim_right_func-has_prefix [] h = refl
trim_right_func-has_prefix (c ∷ p) h = ground arith

-- Nor does one missing at the front.
normalize_path-cons :
    (p : Text) → has_prefix p (slash ∷ []) ≡ false → normalize_path (slash ∷ p) ≡ normalize_path p
unfolding trim_right_func
normalize_path-cons p h =
    rw (normalize_path-lead, normalize_path-lead)
      (lead-cons (trim_right_func is_slash p) (trim_right_func-has_prefix p h))
