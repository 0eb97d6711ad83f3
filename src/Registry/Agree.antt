-- ===== src/Registry/Agree.antt =====
-- The two maps of the registry, `clients` and `pathToClientIDs`, agree after each kind of update.
use attachcloudip.Common.{
  ◌≤◌, ◌≡◌, refl, sym, ap, ◌∙◌, List, [], none, some, if◌then◌else◌, ◌==◌, count, erase,
  count-erase, arith, Option-cases, inl, inr,
}
use attachcloudip.Common.Map.{
  Map, lookup, lookup_or, insert, delete, map_values, lookup-insert, lookup-delete,
  lookup-map_values,
}
use attachcloudip.Common.Text.{Text, text_eq, text_beq_iff}
use attachcloudip.PathIndex.{PathIndex, ids_at, attach_all, detach_all}
use attachcloudip.PathIndex.Laws.{count-attach_all, count-detach_all}
use attachcloudip.Registry.{ClientRegistration}

abbrev pub Clients : Type 0
Clients = Map Text ClientRegistration

unfoldable pub paths_of : Clients → Text → List Text
paths_of clients id = elim (lookup id clients) [ some client ↦ client.paths | none ↦ [] ]

-- Every client is stored under its own ID, and an ID stands in the slice of a path as often as the
-- path stands in its client's list; of an ID that is not registered nothing is left.
pub record Agree (clients : Clients) (index : PathIndex) : Type 0 where
  pub named :
      (id : Text) (client : ClientRegistration) → lookup id clients ≡ some client → client.id ≡ id
  pub indexed : (id p : Text) → count id (ids_at index p) ≡ count p (paths_of clients id)

pub Agree-nil : Agree [] []
unfolding lookup paths_of count ids_at lookup_or
Agree-nil = record { named = λ id client e. cc; indexed = λ id p. refl }

pub paths_of_missing :
    (clients : Clients) (id : Text) → lookup id clients ≡ none → paths_of clients id ≡ []
unfolding paths_of
paths_of_missing clients id e = rw (e, paths_of)

pub paths_of_stored :
    (clients : Clients) (id : Text) (client : ClientRegistration)
    → lookup id clients ≡ some client
    → paths_of clients id ≡ client.paths
unfolding paths_of
paths_of_stored clients id client e = rw (e, paths_of)

paths_of-insert :
    (clients : Clients) (id i : Text) (client : ClientRegistration)
    → paths_of (insert id client clients) i ≡ (if id == i then client.paths else paths_of clients i)
unfolding paths_of
paths_of-insert clients id i client = ground (arith, lookup-insert id i client clients)

paths_of-delete :
    (clients : Clients) (id i : Text)
    → paths_of (delete id clients) i ≡ (if id == i then [] else paths_of clients i)
unfolding paths_of
paths_of-delete clients id i = ground (arith, lookup-delete id i clients)

paths_of-map_values :
    (clients : Clients) (f : ClientRegistration → ClientRegistration)
    → ((c : ClientRegistration) → (f c).paths ≡ c.paths)
    → (i : Text) → paths_of (map_values f clients) i ≡ paths_of clients i
unfolding paths_of
paths_of-map_values clients f g i = elim (Option-cases (lookup i clients)) [
  | inl missing ↦ ground (arith, lookup-map_values f i clients, missing)
  | inr (d, stored) ↦ ground (arith, lookup-map_values f i clients, stored, g d)
]

pub ids_at-map_values :
    (id : Text) (index : PathIndex) (p : Text)
    → ids_at (map_values (erase id) index) p ≡ erase id (ids_at index p)
unfolding ids_at lookup_or erase
ids_at-map_values id index p = ground (arith, lookup-map_values (erase id) p index)

module _ (clients : Clients) (index : PathIndex) (a : Agree clients index) where
  named-insert :
      (id : Text) (client : ClientRegistration)
      → client.id ≡ id
      → (i : Text) (c : ClientRegistration) → lookup i (insert id client clients) ≡ some c
      → c.id ≡ i
  named-insert id client e i c h =
      ground (arith, lookup-insert id i client clients, text_beq_iff id i, a.named i c)

  -- A client of a new ID, with all its paths.
  pub Agree-attach :
      (client : ClientRegistration)
      → lookup client.id clients ≡ none
      → Agree (insert client.id client clients) (attach_all client.id index client.paths)
  unfolding count
  Agree-attach client fresh = record {
    named = named-insert client.id client refl;
    indexed = λ i p. ground (
      arith,
      count-attach_all client.id index client.paths i p,
      paths_of-insert clients client.id i client,
      a.indexed i p,
      paths_of_missing clients client.id fresh,
      text_beq_iff client.id i,
    );
  }

  -- Another value for a client, with the same ID and paths.
  pub Agree-insert :
      (id : Text) (client changed : ClientRegistration)
      → lookup id clients ≡ some client
      → changed.id ≡ client.id
      → changed.paths ≡ client.paths
      → Agree (insert id changed clients) index
  Agree-insert id client changed stored e f = record {
    named = named-insert id changed (e ∙ a.named id client stored);
    indexed = λ i p. ground (
      arith,
      paths_of-insert clients id i changed,
      a.indexed i p,
      paths_of_stored clients id client stored,
      text_beq_iff id i,
      f,
    );
  }

  named-map_values :
      (f : ClientRegistration → ClientRegistration)
      → ((c : ClientRegistration) → (f c).id ≡ c.id)
      → (i : Text) (c : ClientRegistration) → lookup i (map_values f clients) ≡ some c
      → c.id ≡ i
  named-map_values f e i c h = elim (Option-cases (lookup i clients)) [
    | inl missing ↦ absurd (ground (arith, lookup-map_values f i clients, missing))
    | inr (d, stored) ↦
        ground (arith, lookup-map_values f i clients, stored, e d, a.named i d stored)
  ]

  -- The same for every client.
  pub Agree-map_values :
      (f : ClientRegistration → ClientRegistration)
      → ((c : ClientRegistration) → (f c).id ≡ c.id)
      → ((c : ClientRegistration) → (f c).paths ≡ c.paths)
      → Agree (map_values f clients) index
  Agree-map_values f e g = record {
    named = named-map_values f e;
    indexed = λ i p. a.indexed i p ∙ ap (count p) (sym (paths_of-map_values clients f g i));
  }

  named-delete :
      (id i : Text) (c : ClientRegistration) → lookup i (delete id clients) ≡ some c → c.id ≡ i
  named-delete id i c h = ground (arith, lookup-delete id i clients, a.named i c)

  -- A client taken off with all its paths.
  pub Agree-detach :
      (id : Text) (client : ClientRegistration)
      → lookup id clients ≡ some client
      → Agree (delete id clients) (detach_all id index client.paths)
  unfolding count
  Agree-detach id client stored = record {
    named = named-delete id;
    indexed = λ i p. ground (
      arith,
      count-detach_all id index client.paths i p,
      paths_of-delete clients id i,
      a.indexed i p,
      paths_of_stored clients id client stored,
      text_beq_iff id i,
    );
  }

  -- `RemoveClient` cuts the ID once out of each slice: enough if no path is listed twice.
  pub Agree-erase :
      (id : Text)
      → ((p : Text) → count p (paths_of clients id) ≤ 1)
      → Agree (delete id clients) (map_values (erase id) index)
  unfolding count
  Agree-erase id once = record {
    named = named-delete id;
    indexed = λ i p. ground (
      arith,
      ids_at-map_values id index p,
      count-erase id i (ids_at index p),
      paths_of-delete clients id i,
      a.indexed i p,
      once p,
      text_beq_iff id i,
    );
  }
