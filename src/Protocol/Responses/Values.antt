-- ===== src/Protocol/Responses/Values.antt =====
-- The header that the loops of `TCPToHTTPResponse` of pkg/protocol/translator.go write.
use attachcloudip.Common.{
  ◌≡◌, refl, sym, List, [], ◌∷◌, ◌++◌, append_assoc, append-nil, none, if◌then◌else◌, ◌==◌, nat_eq,
  arith,
}
use attachcloudip.Common.Map.{lookup, lookup_or}
use attachcloudip.Common.Text.{Text, text_eq, text_beq_iff}
use attachcloudip.Protocol.Requests.{IsMap}
use attachcloudip.Protocol.Headers.{Header, canonical_key, values, add, values-add}
use attachcloudip.Protocol.Responses.{add_values, add_headers}

values-add_values :
    (k : Text) (h : Header) (key : Text) (list : List Text)
    → values k (add_values h key list)
      ≡ (if canonical_key key == k then values k h ++ list else values k h)
unfolding add_values
values-add_values k h key [] = ground (arith, append-nil (values k h))
values-add_values k h key (value ∷ rest) = ground (
  arith,
  values-add_values k (add h key value) key rest,
  values-add k h key value,
  append_assoc (values k h) (value ∷ []) rest,
)

-- The values that entries with a key give, in their order.
abbrev pub collected : Text → Header → List Text
collected k [] = []
collected k ((key, list) ∷ rest) = (if canonical_key key == k then list else []) ++ collected k rest

pub values-add_headers :
    (k : Text) (h m : Header) → values k (add_headers h m) ≡ values k h ++ collected k m
unfolding add_headers
values-add_headers k h [] = sym (append-nil (values k h))
values-add_headers k h ((key, list) ∷ rest) = ground (
  arith,
  values-add_headers k (add_values h key list) rest,
  values-add_values k h key list,
  append_assoc (values k h) list (collected k rest),
)

-- Every key is in canonical form, as the keys of a received response are.
abbrev pub IsCanonical : Header → Type 0
IsCanonical [] = Unit
IsCanonical ((key, list) ∷ rest) = (canonical_key key ≡ key) × IsCanonical rest

values-cons :
    (k key : Text) (list : List Text) (rest : Header)
    → values k ((key, list) ∷ rest) ≡ (if key == k then list else values k rest)
unfolding values lookup_or lookup
values-cons k key list rest = ground arith

values-none : (k : Text) (m : Header) → lookup k m ≡ none → values k m ≡ []
unfolding values lookup_or
values-none k m e = ground (arith, e)

pub values-nil : (k : Text) → values k [] ≡ []
unfolding values lookup_or lookup
values-nil k = refl

pub collected-values :
    (k : Text) (m : Header) → IsMap m → IsCanonical m → collected k m ≡ values k m
collected-values k [] h c = sym (values-nil k)
collected-values k ((key, list) ∷ rest) h c = ground (
  arith,
  c.0,
  values-cons k key list rest,
  values-none key rest h.0,
  collected-values k rest h.1 c.1,
  append-nil list,
  text_beq_iff key k,
)
