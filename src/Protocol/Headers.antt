-- ===== src/Protocol/Headers.antt =====
-- `http.Header` of the standard library: a map from keys, in canonical form, to lists of values.
use attachcloudip.Common.{
  ℕ, ◌+◌, ◌-◌, ◌≡◌, refl, List, [], ◌∷◌, ◌++◌, Bool, true, false, ◌&&◌, ◌||◌, if◌then◌else◌, ◌==◌,
  nat_eq, leb, contains, arith,
}
use attachcloudip.Common.Map.{Map, lookup_or, insert, lookup_or-insert}
use attachcloudip.Common.Text.{Text, codes, text_eq, text_beq_iff}

abbrev pub Header : Type 0
Header = Map Text (List Text)

-- `validHeaderFieldByte` of net/textproto.
unfoldable pub is_token_char : ℕ → Bool
is_token_char c =
    (leb b'a' c && leb c b'z')
    || (leb b'A' c && leb c b'Z')
    || (leb b'0' c && leb c b'9')
    || contains (codes "!#$%&'*+-.^_`|~") c

unfoldable pub is_token : Text → Bool
unfolding is_token_char
is_token [] = true
is_token (c ∷ s) = is_token_char c && is_token s

unfoldable pub canonical_char : Bool → ℕ → ℕ
canonical_char true c = if leb b'a' c && leb c b'z' then c - 32 else c
canonical_char false c = if leb b'A' c && leb c b'Z' then c + 32 else c

-- The loop of `canonicalMIMEHeaderKey`; the flag says that an upper case letter is to come.
unfoldable pub canonical_from : Bool → Text → Text
unfolding canonical_char
canonical_from upper [] = []
canonical_from upper (c ∷ s) =
    canonical_char upper c ∷ canonical_from (canonical_char upper c == b'-') s

unfoldable pub canonical_key : Text → Text
unfolding is_token canonical_from
canonical_key s = if is_token s then canonical_from true s else s

canonical_mixed : canonical_key (codes "x-FORWARDED-for") ≡ codes "X-Forwarded-For"
unfolding canonical_key contains
canonical_mixed = refl

-- The values of a key that is in canonical form.
unfoldable pub values : Text → Header → List Text
unfolding lookup_or
values k h = lookup_or k [] h

unfoldable pub add : Header → Text → Text → Header
unfolding values canonical_key
add h key value = insert (canonical_key key) (values (canonical_key key) h ++ value ∷ []) h

unfoldable pub set : Header → Text → Text → Header
unfolding canonical_key
set h key value = insert (canonical_key key) (value ∷ []) h

unfoldable pub first_value : List Text → Text
first_value [] = []
first_value (value ∷ rest) = value

unfoldable pub get : Header → Text → Text
unfolding values canonical_key first_value
get h key = first_value (values (canonical_key key) h)

pub values-add :
    (k : Text) (h : Header) (key value : Text)
    → values k (add h key value)
      ≡ (if canonical_key key == k then values k h ++ value ∷ [] else values k h)
unfolding add values
values-add k h key value = ground (
  arith,
  lookup_or-insert (canonical_key key) k (values (canonical_key key) h ++ value ∷ []) [] h,
  text_beq_iff (canonical_key key) k,
)

pub values-set :
    (k : Text) (h : Header) (key value : Text)
    → values k (set h key value) ≡ (if canonical_key key == k then value ∷ [] else values k h)
unfolding set values
values-set k h key value = lookup_or-insert (canonical_key key) k (value ∷ []) [] h
