-- ===== src/Strings/HostPort.antt =====
-- `net.SplitHostPort` on texts.
pub mod Laws
use attachcloudip.Common.{
  ℕ, ◌≡◌, ◌≢◌, refl, Bool, true, false, ◌||◌, List, [], ◌∷◌, ◌++◌, Option, none, some,
  if◌then◌else◌, nat_beq, nat_beq_iff, contains, nat_eq, ◌==◌, Result, ok, err, arith, All,
}
use attachcloudip.Common.Text.{Text}
use attachcloudip.Strings.Parts.{Lacks}

abbrev pub colon : ℕ
colon = b':'

pub data AddressError : Type 0 where
  missing_port too_many_colons missing_bracket unexpected_open unexpected_close : AddressError

-- The text before the first, and before the last, occurrence of a character, and the text after it.
unfoldable pub cut_first : ℕ → Text → Option (Text × Text)
cut_first c [] = none
cut_first c (d ∷ s) =
    let rest = cut_first c s in
    if nat_beq d c
    then some ([], s)
    else elim rest [ none ↦ none | some (before, after) ↦ some (d ∷ before, after) ]

unfoldable pub cut_last : ℕ → Text → Option (Text × Text)
cut_last c [] = none
cut_last c (d ∷ s) = elim (cut_last c s) [
  | some (before, after) ↦ some (d ∷ before, after)
  | none ↦ if nat_beq d c then some ([], s) else none
]

-- The tests for brackets that are left over, in what follows the places `j` and `k`.
unfoldable pub check_brackets : Text → Text → Text → Text → Result AddressError (Text × Text)
check_brackets from_j from_k host port =
    if contains from_j b'['
    then err unexpected_open
    else if contains from_k b']'
    then err unexpected_close
    else ok (host, port)

-- What follows the first closing bracket has to be the last colon and the port.
unfoldable pub split_bracketed : Text → Option (Text × Text) → Result AddressError (Text × Text)
unfolding check_brackets
split_bracketed rest none = err missing_bracket
split_bracketed rest (some (host, [])) = err missing_port
split_bracketed rest (some (host, c ∷ port)) =
    if nat_beq c colon
    then if contains port colon then err too_many_colons else check_brackets rest port host port
    else err missing_port

unfoldable pub split_plain : Text → Text → Text → Result AddressError (Text × Text)
unfolding check_brackets
split_plain address host port =
    if contains host colon then err too_many_colons else check_brackets address address host port

unfoldable pub split_at : Text → Option (Text × Text) → Result AddressError (Text × Text)
unfolding split_plain split_bracketed cut_first
split_at address none = err missing_port
split_at [] (some (host, port)) = split_plain [] host port
split_at (c ∷ rest) (some (host, port)) =
    if nat_beq c b'['
    then split_bracketed rest (cut_first b']' rest)
    else split_plain (c ∷ rest) host port

unfoldable pub split_host_port : Text → Result AddressError (Text × Text)
unfolding split_at cut_last
split_host_port address = split_at address (cut_last colon address)
