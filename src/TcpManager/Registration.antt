-- ===== src/TcpManager/Registration.antt =====
-- The registration message of cmd/client/main.go and the reading of it in cmd/server/tcpmanager.go.
use mathlib.Core.Path.{subst}
use attachcloudip.Common.{
  ◌≡◌, ◌≢◌, refl, List, [], ◌∷◌, ◌++◌, ◌||◌, Option, none, some, length, ◌==◌, nat_eq,
  if◌then◌else◌, arith, All,
}
use attachcloudip.Common.Text.{Text}
use attachcloudip.Strings.{trim_space, is_space}
use attachcloudip.Strings.Laws.{IsTrimmed, EndsOutside-append, trim_space_id, trim_space-newline}
use attachcloudip.Strings.Parts.{
  split, split_two, split-All, remove_all, remove_all_id, remove_all-Lacks, Lacks,
}
use attachcloudip.Strings.Trims.{trim_space-Lacks, remove_all-keeps}
use attachcloudip.TcpManager.{bar, newline, from_parts, parse_registration}
use attachcloudip.Client.{registration_message}

-- A text that can stand in a registration message: not empty, without space at its ends, and without
-- the bar.
pub record IsField (s : Text) : Type 0 where
  pub filled : s ≢ []
  pub trimmed : IsTrimmed s
  pub no_bar : Lacks bar s

fields-IsTrimmed : (id path : Text) → IsField id → IsField path → IsTrimmed (id ++ bar ∷ path)
unfolding is_space
fields-IsTrimmed [] path f g = absurd (f.filled refl)
fields-IsTrimmed (c ∷ id) [] f g = absurd (g.filled refl)
fields-IsTrimmed (c ∷ id) (d ∷ path) f g = record {
  starts = f.trimmed.starts;
  ends = EndsOutside-append is_space (c ∷ id) bar (d ∷ path) g.trimmed.ends;
}

from_fields :
    (id path : Text)
    → IsField id
    → IsField path
    → Lacks newline path
    → from_parts (id ∷ path ∷ []) ≡ some (id, path)
unfolding from_parts
from_fields [] path f g h = absurd (f.filled refl)
from_fields (c ∷ id) [] f g h = absurd (g.filled refl)
from_fields (c ∷ id) (d ∷ path) f g h =
    rw
      (
        trim_space_id (c ∷ id) f.trimmed,
        trim_space_id (d ∷ path) g.trimmed,
        remove_all_id newline (d ∷ path) h,
      )
      (ground arith)

-- The server reads the ID and the path that the client sent, if both are fields and the path is one
-- line.
pub parse_registration-registration_message :
    (id path : Text)
    → IsField id
    → IsField path
    → Lacks newline path
    → parse_registration (registration_message id path) ≡ some (id, path)
unfolding parse_registration registration_message
parse_registration-registration_message id path f g h =
    rw
      (
        trim_space-newline (id ++ bar ∷ path) (fields-IsTrimmed id path f g),
        split_two id path bar f.no_bar g.no_bar,
      )
      (from_fields id path f g h)

-- An ID and a path that a client can be registered under.
pub record IsRegistration (id path : Text) : Type 0 where
  pub id_filled : id ≢ []
  pub path_filled : path ≢ []
  pub id_no_bar : Lacks bar id
  pub path_no_bar : Lacks bar path
  pub one_line : Lacks newline path

abbrev pair : Text → Text → Option (Text × Text)
pair id path = some (id, path)

-- The test for an empty ID or path.
checked_sound :
    (first second id path : Text)
    → (if (length first == 0) || (length second == 0) then none else pair first second)
      ≡ some (id, path)
    → (first ≢ []) × (second ≢ []) × (first ≡ id) × (second ≡ path)
checked_sound [] second id path e = ground arith
checked_sound (c ∷ first) [] id path e = ground arith
checked_sound (c ∷ first) (d ∷ second) id path e = ground arith

from_parts_sound :
    (parts : List Text) (id path : Text)
    → All (Lacks bar) parts
    → from_parts parts ≡ some (id, path)
    → IsRegistration id path
unfolding from_parts
from_parts_sound [] id path h e = cc
from_parts_sound (s ∷ []) id path h e = cc
from_parts_sound (s ∷ t ∷ u ∷ parts) id path h e = cc
from_parts_sound (s ∷ t ∷ []) id path h e =
    let first = trim_space s in
    let second = remove_all newline (trim_space t) in
    let (n, k, same_id, same_path) = checked_sound first second id path e in
    subst (λ x. IsRegistration x path) same_id
      (subst (λ x. IsRegistration first x) same_path
        (record {
          id_filled = n;
          path_filled = k;
          id_no_bar = trim_space-Lacks bar s h.0;
          path_no_bar = remove_all-keeps newline bar (trim_space t) (trim_space-Lacks bar t h.1.0);
          one_line = remove_all-Lacks newline (trim_space t);
        }))

-- What the server takes for a registration has an ID and a path that are not empty, neither with a
-- bar and the path with no line break.
parse_registration_sound :
    (message id path : Text) → parse_registration message ≡ some (id, path) → IsRegistration id path
unfolding parse_registration
parse_registration_sound message id path e =
    from_parts_sound (split (trim_space message) bar) id path (split-All (trim_space message) bar) e
