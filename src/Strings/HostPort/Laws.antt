-- ===== src/Strings/HostPort/Laws.antt =====
-- Addresses that are put together from a host and a port.
use attachcloudip.Common.{
  sym, ap, ◌∙◌, append_assoc, ℕ, ◌≡◌, ◌≢◌, refl, true, false, [], ◌∷◌, ◌++◌, none, some, contains,
  nat_eq, ok, err, arith, All-append,
}
use attachcloudip.Common.Text.{Text}
use attachcloudip.Strings.Parts.{Lacks}
use attachcloudip.Strings.HostPort.{
  colon, too_many_colons, cut_first, cut_last, check_brackets, split_bracketed, split_plain,
  split_at, split_host_port,
}

cut_last-Lacks : (c : ℕ) (t : Text) → Lacks c t → cut_last c t ≡ none
unfolding cut_last
cut_last-Lacks c [] h = refl
cut_last-Lacks c (d ∷ t) h = ground (arith, cut_last-Lacks c t h.1)

cut_last-append : (c : ℕ) (s t : Text) → Lacks c t → cut_last c (s ++ c ∷ t) ≡ some (s, t)
unfolding cut_last
cut_last-append c [] t h = ground (arith, cut_last-Lacks c t h)
cut_last-append c (d ∷ s) t h = rw (cut_last-append c s t h, cut_last)

cut_first-append : (c : ℕ) (s t : Text) → Lacks c s → cut_first c (s ++ c ∷ t) ≡ some (s, t)
unfolding cut_first
cut_first-append c [] t h = ground arith
cut_first-append c (d ∷ s) t h = ground (arith, cut_first-append c s t h.1)

contains-Lacks : (c : ℕ) (s : Text) → Lacks c s → contains s c ≡ false
unfolding contains
contains-Lacks c [] h = refl
contains-Lacks c (d ∷ s) h = ground (arith, contains-Lacks c s h.1)

-- A text without colons and brackets, as a host name and a port are.
pub record IsPart (s : Text) : Type 0 where
  pub no_colon : Lacks colon s
  pub no_open : Lacks b'[' s
  pub no_close : Lacks b']' s

joined-Lacks :
    (c : ℕ) (host port : Text)
    → colon ≢ c
    → Lacks c host
    → Lacks c port
    → Lacks c (host ++ colon ∷ port)
joined-Lacks c host port n h k = All-append (λ d. d ≢ c) host (colon ∷ port) h (n, k)

-- The address without brackets.
split_at_plain :
    (host port : Text)
    → Lacks b'[' host
    → split_at (host ++ colon ∷ port) (some (host, port))
      ≡ split_plain (host ++ colon ∷ port) host port
unfolding split_at
split_at_plain [] port h = refl
split_at_plain (c ∷ host) port h = ground (arith, h.0)

-- The address of a host and a port is taken apart into them.
pub split_host_port-join :
    (host port : Text)
    → IsPart host
    → IsPart port
    → split_host_port (host ++ colon ∷ port) ≡ ok (host, port)
unfolding split_host_port split_plain check_brackets
split_host_port-join host port h k =
    rw
      (
        cut_last-append colon host port k.no_colon,
        split_at_plain host port h.no_open,
        contains-Lacks colon host h.no_colon,
        contains-Lacks b'[' (host ++ colon ∷ port)
            (joined-Lacks b'[' host port (omega arith) h.no_open k.no_open),
        contains-Lacks b']' (host ++ colon ∷ port)
            (joined-Lacks b']' host port (omega arith) h.no_close k.no_close),
      )
      refl

-- A host with a colon, as an IPv6 address has, is refused unless it stands in brackets.
pub split_host_port-colon :
    (host port : Text)
    → contains host colon ≡ true
    → Lacks b'[' host
    → Lacks colon port
    → split_host_port (host ++ colon ∷ port) ≡ err too_many_colons
unfolding split_host_port split_plain
split_host_port-colon host port e h k =
    rw (cut_last-append colon host port k, split_at_plain host port h, e) refl

abbrev pub bracketed : Text → Text → Text
bracketed host port = b'[' ∷ (host ++ (b']' ∷ colon ∷ port))

cut_last-bracketed :
    (host port : Text)
    → Lacks colon port
    → cut_last colon (bracketed host port) ≡ some (b'[' ∷ (host ++ b']' ∷ []), port)
cut_last-bracketed host port h =
    ap (λ s. cut_last colon (b'[' ∷ s)) (sym (append_assoc host (b']' ∷ []) (colon ∷ port)))
    ∙ cut_last-append colon (b'[' ∷ (host ++ b']' ∷ [])) port h

-- In brackets it is taken.
pub split_host_port-bracketed :
    (host port : Text)
    → Lacks b'[' host
    → Lacks b']' host
    → IsPart port
    → split_host_port (bracketed host port) ≡ ok (host, port)
unfolding split_host_port split_at split_bracketed check_brackets
split_host_port-bracketed host port h k p =
    rw
      (
        cut_last-bracketed host port p.no_colon,
        cut_first-append b']' host (colon ∷ port) k,
        contains-Lacks colon port p.no_colon,
        contains-Lacks b'[' (host ++ (b']' ∷ colon ∷ port)) (
            All-append (λ d. d ≢ b'[') host (b']' ∷ colon ∷ port) h
              (omega arith, (omega arith, p.no_open))),
        contains-Lacks b']' port p.no_close,
      )
      refl
