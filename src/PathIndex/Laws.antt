-- ===== src/PathIndex/Laws.antt =====
-- How often an ID stands at a path after each update.
use attachcloudip.Common.{
  ◌+◌, ◌-◌, ◌≡◌, ◌≢◌, refl, sym, ◌∙◌, List, [], ◌∷◌, ◌++◌, true, some, if◌then◌else◌, ◌==◌, nat_eq,
  length, arith, count, erase, contains, erase_id, count-erase, count-append, Bool-cases, inl, inr,
}
use attachcloudip.Common.Map.{
  lookup, lookup_or, lookup-insert, lookup-delete, lookup_or-insert, lookup_or-delete,
}
use attachcloudip.Common.Text.{Text, text_eq, text_beq_iff}
use attachcloudip.PathIndex.{
  PathIndex, ids_at, attach, attach_all, cut_id, drop_empty, detach, detach_all,
}

-- No path is kept with no client.
abbrev pub NoEmpty : PathIndex → Type 0
NoEmpty index = (p : Text) → lookup p index ≢ some []

ids_at-attach :
    (id : Text) (index : PathIndex) (q p : Text)
    → ids_at (attach id index q) p ≡ (if q == p then ids_at index q ++ id ∷ [] else ids_at index p)
unfolding ids_at attach
ids_at-attach id index q p = lookup_or-insert q p (ids_at index q ++ id ∷ []) [] index

ids_at-cut_id :
    (id : Text) (index : PathIndex) (q p : Text)
    → ids_at (cut_id id index q) p ≡ (if q == p then erase id (ids_at index q) else ids_at index p)
unfolding cut_id
ids_at-cut_id id index q p = elim (Bool-cases (contains (ids_at index q) id)) [
  | inl present ↦
      rw present (unfold ids_at in lookup_or-insert q p (erase id (ids_at index q)) [] index)
  | inr missing ↦
      rw (missing, erase_id id (ids_at index q) missing) (ground (arith, text_beq_iff q p))
]

length-eq-zero : (xs : List Text) → (length xs == 0) ≡ true → xs ≡ []
length-eq-zero [] h = refl
length-eq-zero (x ∷ xs) h = absurd (ground arith)

-- Dropping an entry with no client is not seen by a reader of the slices.
ids_at-drop_empty :
    (index : PathIndex) (q p : Text) → ids_at (drop_empty index q) p ≡ ids_at index p
unfolding drop_empty ids_at
ids_at-drop_empty index q p =
    ground (
      arith,
      text_beq_iff q p,
      lookup_or-delete q p [] index,
      length-eq-zero (lookup_or q [] index),
    )

ids_at-detach :
    (id : Text) (index : PathIndex) (q p : Text)
    → ids_at (detach id index q) p ≡ (if q == p then erase id (ids_at index q) else ids_at index p)
unfolding detach
ids_at-detach id index q p = ids_at-drop_empty (cut_id id index q) q p ∙ ids_at-cut_id id index q p

-- Registering `id` at the paths adds it once for each time that a path is listed.
pub count-attach_all :
    (id : Text) (index : PathIndex) (paths : List Text) (j p : Text)
    → count j (ids_at (attach_all id index paths) p)
      ≡ (if id == j then count j (ids_at index p) + count p paths else count j (ids_at index p))
unfolding attach_all count
count-attach_all id index [] j p = ground arith
count-attach_all id index (q ∷ paths) j p = ground (
  arith,
  count-attach_all id (attach id index q) paths j p,
  ids_at-attach id index q p,
  count-append j (ids_at index q) (id ∷ []),
  text_beq_iff q p,
  text_beq_iff id j,
)

-- Taking `id` off the paths removes it as often.
pub count-detach_all :
    (id : Text) (index : PathIndex) (paths : List Text) (j p : Text)
    → count j (ids_at (detach_all id index paths) p)
      ≡ (if id == j then count j (ids_at index p) - count p paths else count j (ids_at index p))
unfolding detach_all count
count-detach_all id index [] j p = ground arith
count-detach_all id index (q ∷ paths) j p = ground (
  arith,
  count-detach_all id (detach id index q) paths j p,
  ids_at-detach id index q p,
  count-erase id j (ids_at index q),
  text_beq_iff q p,
  text_beq_iff id j,
)

append-ne-nil : (xs : List Text) (x : Text) → xs ++ x ∷ [] ≢ []
append-ne-nil [] x e = cc
append-ne-nil (y ∷ xs) x e = cc

attach-NoEmpty :
    (id : Text) (index : PathIndex) (q : Text) → NoEmpty index → NoEmpty (attach id index q)
unfolding attach
attach-NoEmpty id index q h p e = ground (
  arith,
  lookup-insert q p (ids_at index q ++ id ∷ []) index,
  append-ne-nil (ids_at index q) id,
  h p,
)

pub attach_all-NoEmpty :
    (id : Text) (index : PathIndex) (paths : List Text)
    → NoEmpty index
    → NoEmpty (attach_all id index paths)
unfolding attach_all
attach_all-NoEmpty id index [] h = h
attach_all-NoEmpty id index (q ∷ paths) h =
    attach_all-NoEmpty id (attach id index q) paths (attach-NoEmpty id index q h)

-- At every other path the entry is as before.
lookup-cut_id :
    (id : Text) (index : PathIndex) (q p : Text)
    → q ≢ p
    → lookup p (cut_id id index q) ≡ lookup p index
unfolding cut_id
lookup-cut_id id index q p ne =
    ground (arith, lookup-insert q p (erase id (ids_at index q)) index, text_beq_iff q p)

drop_empty-NoEmpty :
    (index : PathIndex) (q : Text)
    → ((p : Text) → q ≢ p → lookup p index ≢ some [])
    → NoEmpty (drop_empty index q)
unfolding drop_empty ids_at lookup_or
drop_empty-NoEmpty index q h p e = ground (arith, h p, text_beq_iff q p, lookup-delete q p index)

detach-NoEmpty :
    (id : Text) (index : PathIndex) (q : Text) → NoEmpty index → NoEmpty (detach id index q)
unfolding detach
detach-NoEmpty id index q h =
    drop_empty-NoEmpty (cut_id id index q) q
      (λ p ne e. h p (sym (lookup-cut_id id index q p ne) ∙ e))

pub detach_all-NoEmpty :
    (id : Text) (index : PathIndex) (paths : List Text)
    → NoEmpty index
    → NoEmpty (detach_all id index paths)
unfolding detach_all
detach_all-NoEmpty id index [] h = h
detach_all-NoEmpty id index (q ∷ paths) h =
    detach_all-NoEmpty id (detach id index q) paths (detach-NoEmpty id index q h)
