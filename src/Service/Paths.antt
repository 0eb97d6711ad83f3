-- ===== src/Service/Paths.antt =====
-- pkg/service/tunnel_service.go: `normalizePath`, `isPathMatch` and `contains`.
pub mod Laws
use attachcloudip.Common.{ℕ, Bool, not, [], ◌∷◌, ◌++◌, ◌≡◌, refl, true, false, if◌then◌else◌}
use attachcloudip.Common.Text.{Text, codes}
use attachcloudip.Strings.{trim_right, has_prefix}

abbrev pub slash : ℕ
slash = b'/'

unfoldable pub normalize_path : Text → Text
normalize_path p =
    let trimmed = trim_right p slash in
    if not (has_prefix trimmed (slash ∷ [])) then slash ∷ trimmed else trimmed

unfoldable pub is_path_match : Text → Text → Bool
is_path_match pattern request_path = has_prefix request_path pattern

normalized_root : normalize_path (codes "///") ≡ codes "/"
unfolding normalize_path trim_right has_prefix
normalized_root = refl

normalized_relative : normalize_path (codes "api/v1/") ≡ codes "/api/v1"
unfolding normalize_path trim_right has_prefix
normalized_relative = refl
