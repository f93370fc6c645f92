-- ===== src/Registry/Tests.antt =====
-- internal/registry: the theorems on sample images and a sample registry.
use homelab_dashboard.Prelude.{
  ◌≡◌, ◌≢◌, ◌↔◌, inl, inr, refl, true, false, none, List, [], ◌∷◌, ◌++◌, map, Text, codes, text_eq,
  In, arith, any_of, sym, subst,
}
use homelab_dashboard.Prelude.Assoc.{lookup}
use homelab_dashboard.Prelude.Strings.{has_prefix, contains, trim_prefix, is_space}
use homelab_dashboard.Prelude.Decimal.{plus}
use homelab_dashboard.Store.Images.{FoundIn}
use homelab_dashboard.Registry.Reference.{
  Reference, parsed, parse_reference, repo_key, is_local_id, looks_like_registry, is_hub_alias,
  all_lower_hex, is_lower_hex,
}
use homelab_dashboard.Registry.Reference.Canonical.{
  IsCanonical, IsPrivate, IsTag, parse_reference-repo_key,
}
use homelab_dashboard.Registry.Challenge.{parse_challenge}
use homelab_dashboard.Registry.Challenge.Print.{
  print_challenge, insert_all, IsParam, parse_challenge-print_challenge,
}
use homelab_dashboard.Prelude.Runes.{write_runes, rune_width}
use homelab_dashboard.Registry.Manifest.{Net, Response, whole}
use homelab_dashboard.Registry.Tokens.{remote_digests}
use homelab_dashboard.Registry.Tokens.Cache.{HasHead, remote_digests_confirmed}
use homelab_dashboard.Registry.Checker.{
  ImageSummary, check_one, index_local_digests, run_check, record_of,
}
use homelab_dashboard.Registry.Checker.Newer.{IsNewer, check_one_available, check_one_error}
use homelab_dashboard.Registry.Checker.Stored.{results_of, run_check_rows}

abbrev app : Reference
app = record {
  registry = codes "ghcr.io";
  repository = codes "team/app";
  tag = codes "v1";
  original = codes "ghcr.io/team/app:v1";
}

app-IsPrivate : IsPrivate app
unfolding IsPrivate looks_like_registry is_hub_alias text_eq contains has_prefix
app-IsPrivate = (refl, refl, refl, ground arith, ground arith, ground arith)

app-IsCanonical : IsCanonical app
unfolding IsCanonical IsTag
app-IsCanonical = ((λ e. cc, ground arith, ground arith, ground arith), inl app-IsPrivate)

parse_reference-repo_key_example : parse_reference (repo_key app ++ b':' ∷ app.tag) ≡ parsed app
unfolding repo_key text_eq is_local_id trim_prefix all_lower_hex is_lower_hex
parse_reference-repo_key_example = parse_reference-repo_key app app-IsCanonical refl refl

abbrev realm : Text × Text
realm = (codes "realm", codes "https://r/token")

abbrev scopes : Text × Text
scopes = (codes "scope", codes "a:pull,push")

realm-IsParam : IsParam realm
unfolding IsParam is_space
realm-IsParam = (ground arith, ground arith, ground arith, ground arith, ground arith, ground arith)

scopes-IsParam : IsParam scopes
unfolding IsParam is_space
scopes-IsParam =
    (ground arith, ground arith, ground arith, ground arith, ground arith, ground arith)

parse_challenge-print_challenge_example :
    parse_challenge (print_challenge realm (scopes ∷ [])) ≡ insert_all (realm ∷ scopes ∷ []) []
parse_challenge-print_challenge_example =
    parse_challenge-print_challenge realm (scopes ∷ []) (realm-IsParam, (scopes-IsParam, tt))

-- A byte that is not UTF-8 becomes U+FFFD, and runes of several bytes are copied.
invalid_replaced :
    write_runes 0 (b'a' ∷ 255 ∷ 195 ∷ 169 ∷ 226 ∷ 128 ∷ [])
    ≡ b'a' ∷ 239 ∷ 191 ∷ 189 ∷ 195 ∷ 169 ∷ 239 ∷ 191 ∷ 189 ∷ 239 ∷ 191 ∷ 189 ∷ []
unfolding write_runes rune_width
invalid_replaced = refl

-- A registry that has one manifest, and asks for no token.
abbrev open_response : Response
open_response = record {
  status = 200;
  digest = codes "sha256:new";
  challenge = [];
  content_type = [];
  body = whole [];
}

-- A registry that refuses.
abbrev closed_response : Response
closed_response = record open_response { status = 403 }

abbrev registry_of : Response → Net
registry_of response = record {
  send = λ n request. inr response;
  request_error = λ url. none;
  encode_query = λ query. [];
  sha256_hex = λ body. [];
  index_digests = λ body. none;
  decode_token =
      λ body. inr (record { token = codes "t"; access_token = []; expires_in = plus 300 });
}

abbrev local_images : List ImageSummary
local_images =
    record {
      repo_tags = codes "ghcr.io/team/app:v1" ∷ [];
      repo_digests = codes "ghcr.io/team/app@sha256:old" ∷ [];
    }
    ∷ []

remote_digests_confirmed_example :
    HasHead
      (registry_of open_response)
      []
      10
      app
      (record { primary = codes "sha256:new"; children = [] })
unfolding remote_digests
remote_digests_confirmed_example =
    remote_digests_confirmed (registry_of open_response) [] 10 app []
      (record { primary = codes "sha256:new"; children = [] }) refl

check_one_available_example :
    ((check_one []
        (registry_of open_response)
        10
        app.original
        (index_local_digests local_images)
        []).0.update_available
      ≡ true)
    ↔ IsNewer []
        (registry_of open_response)
        10
        (index_local_digests local_images)
        []
        (parse_reference app.original)
check_one_available_example =
    check_one_available [] (registry_of open_response) 10 app.original
      (index_local_digests local_images) []

newer_found :
    (check_one []
      (registry_of open_response)
      10
      app.original
      (index_local_digests local_images)
      []).0.update_available
    ≡ true
unfolding check_one text_eq index_local_digests any_of
newer_found = refl

access_denied :
    (check_one []
      (registry_of closed_response)
      10
      app.original
      (index_local_digests local_images)
      []).0.error
    ≡ codes "registry denied access"
unfolding check_one text_eq index_local_digests
access_denied = refl

check_one_error_example :
    let result =
      (check_one []
        (registry_of closed_response)
        10
        app.original
        (index_local_digests local_images)
        []).0 in
    (result.update_available ≡ false) × (result.remote_digest ≡ []) × (result.local_digest ≡ [])
check_one_error_example =
    check_one_error [] (registry_of closed_response) 10 app.original
      (index_local_digests local_images) [] (subst (λ t. t ≢ []) (sym access_denied) (λ e. cc))

run_check_rows_example :
    (In app.original (app.original ∷ [])
      → FoundIn
          (λ r. In r (
            map (record_of 10) (
              results_of []
                (λ i. registry_of open_response)
                (λ i. 10)
                (λ i. false)
                (app.original ∷ [])
                local_images
                [])))
          app.original
          (run_check []
            (λ i. registry_of open_response)
            (λ i. 10)
            (λ i. false)
            10
            none
            none
            (app.original ∷ [])
            []
            (inr local_images)
            []).1)
    × ((In app.original (app.original ∷ []) → ⊥)
        → lookup app.original
            (run_check []
              (λ i. registry_of open_response)
              (λ i. 10)
              (λ i. false)
              10
              none
              none
              (app.original ∷ [])
              []
              (inr local_images)
              []).1
          ≡ none)
run_check_rows_example =
    run_check_rows [] (λ i. registry_of open_response) (λ i. 10) (λ i. false) 10 (app.original ∷ [])
      [] local_images [] app.original
