-- ===== src/Registry/Reference.antt =====
-- internal/registry/reference.go: image references and the keys of their digests.
pub mod Canonical
use homelab_dashboard.Prelude.{
  ℕ, Bool, true, false, ◌&&◌, ◌||◌, Option, none, some, [], ◌∷◌, ◌++◌, Text, codes, text_eq, leb,
  if◌then◌else◌, length,
}
use homelab_dashboard.Prelude.Strings.{contains, trim_prefix, cut, cut_last}

pub record Reference : Type 0 where
  pub registry : Text
  pub repository : Text
  pub tag : Text
  pub original : Text

-- What ParseReference returns: a reference alone, or a reference with ErrLocalImage.
pub data Parsed : Type 0 where
  parsed : Reference → Parsed
  err_local_image : Reference → Parsed

abbrev pub docker_hub_registry : Text
docker_hub_registry = codes "registry-1.docker.io"

-- The class [0-9a-f].
unfoldable pub is_lower_hex : ℕ → Bool
is_lower_hex c = leb 48 c && leb c 57 || leb 97 c && leb c 102

unfoldable pub all_lower_hex : Text → Bool
unfolding is_lower_hex
all_lower_hex [] = true
all_lower_hex (c ∷ s) = is_lower_hex c && all_lower_hex s

-- localIDRe; the prefix holds bytes outside the class, so it is taken off where it stands.
unfoldable pub is_local_id : Text → Bool
unfolding all_lower_hex trim_prefix
is_local_id image =
    let digits = trim_prefix image (codes "sha256:") in
    leb 12 (length digits) && leb (length digits) 64 && all_lower_hex digits

-- The image before its digest, and the tag it has so far.
unfoldable pub before_digest : Text → Option (Text × Text) → Text × Text
before_digest image none = (image, codes "latest")
before_digest image (some (before, digest)) = (before, [])

-- The part of the name before the last colon of its end, and the tag after it.
unfoldable pub tagged : Text → Text × Text → Option (Text × Text) → Text × Text
tagged start untagged none = untagged
tagged start untagged (some (end, tag)) = (start ++ end, tag)

-- A colon before the last slash is the port of a registry.
unfoldable pub split_tag : Text × Text → Option (Text × Text) → Text × Text
unfolding tagged cut_last
split_tag (name, tag) none = tagged [] (name, tag) (cut_last name b':')
split_tag (name, tag) (some (start, end)) = tagged start (name, tag) (cut_last (b'/' ∷ end) b':')

unfoldable pub looks_like_registry : Text → Bool
unfolding contains
looks_like_registry host =
    contains host (codes ".") || (contains host (codes ":") || text_eq host (codes "localhost"))

unfoldable pub in_library : Text → Text
in_library name = if contains name (codes "/") then name else codes "library/" ++ name

-- The registry and the repository.
unfoldable pub located : Text → Option (Text × Text) → Text × Text
unfolding looks_like_registry in_library
located name none = (docker_hub_registry, in_library name)
located name (some (host, rest)) =
    if looks_like_registry host then (host, rest) else (docker_hub_registry, in_library name)

unfoldable pub is_hub_alias : Text → Bool
is_hub_alias host = text_eq host (codes "docker.io") || text_eq host (codes "index.docker.io")

unfoldable pub without_alias : Text × Text → Text × Text
unfolding in_library is_hub_alias
without_alias (host, repository) =
    if is_hub_alias host then (docker_hub_registry, in_library repository) else (host, repository)

unfoldable pub without_error : Text → Reference → Parsed
without_error [] ref = err_local_image ref
without_error (c ∷ cs) ref = parsed ref

unfoldable pub refer : Text → Text × Text → Parsed
unfolding without_error without_alias located cut
refer image (name, tag) =
    let place = without_alias (located name (cut name b'/')) in
    without_error tag
      (record { registry = place.0; repository = place.1; tag = tag; original = image })

unfoldable pub no_reference : Text → Reference
no_reference image = record {
  registry = [];
  repository = [];
  tag = codes "latest";
  original = image;
}

unfoldable pub parse_reference : Text → Parsed
unfolding is_local_id split_tag refer before_digest cut cut_last no_reference
parse_reference image =
    let untagged = before_digest image (cut image b'@') in
    if text_eq image [] || is_local_id image
    then err_local_image (no_reference image)
    else refer image (split_tag untagged (cut_last untagged.0 b'/'))

unfoldable pub manifest_url : Reference → Text
manifest_url r =
    codes "https://" ++ r.registry ++ codes "/v2/" ++ r.repository ++ codes "/manifests/" ++ r.tag

unfoldable pub scope : Reference → Text
scope r = codes "repository:" ++ r.repository ++ codes ":pull"

unfoldable pub repo_key : Reference → Text
unfolding trim_prefix
repo_key r =
    if text_eq r.registry docker_hub_registry
    then trim_prefix r.repository (codes "library/")
    else r.registry ++ b'/' ∷ r.repository

unfoldable pub normalized : Option (Text × Text) → Text × Text
unfolding trim_prefix
normalized none = ([], [])
normalized (some (repo, digest)) =
    let repo = trim_prefix (trim_prefix repo (codes "docker.io/")) (codes "index.docker.io/") in
    (trim_prefix repo (codes "library/"), digest)

unfoldable pub normalize_repo_digest : Text → Text × Text
unfolding normalized cut
normalize_repo_digest repo_digest = normalized (cut repo_digest b'@')
