-- ===== src/PathIndex.antt =====
-- The map from a path to the IDs of its clients, which pkg/registry/registry.go
-- (`pathToClientIDs`) and pkg/service/tunnel_service.go (`pathClients`) keep and update alike.
pub mod Laws
use attachcloudip.Common.{
  ℕ, List, [], ◌∷◌, ◌++◌, Bool, if◌then◌else◌, ◌==◌, nat_eq, length, erase, contains,
}
use attachcloudip.Common.Map.{Map, lookup_or, insert, delete}
use attachcloudip.Common.Text.{Text, text_eq}

abbrev pub PathIndex : Type 0
PathIndex = Map Text (List Text)

-- `index[path]`: a path with no entry has no client.
unfoldable pub ids_at : PathIndex → Text → List Text
ids_at index path = lookup_or path [] index

-- `index[path] = append(index[path], id)`
unfoldable pub attach : Text → PathIndex → Text → PathIndex
unfolding ids_at
attach id index path = insert path (ids_at index path ++ id ∷ []) index

-- `for _, path := range paths { index[path] = append(index[path], id) }`
unfoldable pub attach_all : Text → PathIndex → List Text → PathIndex
attach_all id index [] = index
attach_all id index (path ∷ paths) = attach_all id (attach id index path) paths

-- The first occurrence of `id` at the path is cut out of the slice, which is stored if there is one.
unfoldable pub cut_id : Text → PathIndex → Text → PathIndex
cut_id id index path =
    if contains (ids_at index path) id
    then insert path (erase id (ids_at index path)) index
    else index

-- `if len(index[path]) == 0 { delete(index, path) }`
unfoldable pub drop_empty : PathIndex → Text → PathIndex
drop_empty index path = if length (ids_at index path) == 0 then delete path index else index

unfoldable pub detach : Text → PathIndex → Text → PathIndex
detach id index path = drop_empty (cut_id id index path) path

unfoldable pub detach_all : Text → PathIndex → List Text → PathIndex
detach_all id index [] = index
detach_all id index (path ∷ paths) = detach_all id (detach id index path) paths
