-- ===== src/Registry/Manifest.antt =====
-- internal/registry/checker.go: the requests to a registry and the manifests in its answers. What the code calls of net/http, net/url, crypto/sha256 and encoding/json is the record
-- `Net`; the answer to a request may depend on how many requests were sent before it.
use homelab_dashboard.Prelude.{
  ℕ, Bool, not, ◌||◌, Option, none, some, List, [], ◌∷◌, ◌++◌, ◌⊎◌, inl, inr, Text, codes, text_eq,
  ◌==◌, if◌then◌else◌, take, keep_if, any_of,
}
use homelab_dashboard.Prelude.Decimal.{format_int, Signed}
use homelab_dashboard.Prelude.Strings.{contains}
use homelab_dashboard.Registry.Reference.{Reference, manifest_url}

pub data Method : Type 0 where
  head_method : Method
  get_method : Method

pub data Authorization : Type 0 where
  no_authorization : Authorization
  bearer : Text → Authorization
  basic : Text → Text → Authorization

pub record Request : Type 0 where
  pub method : Method
  pub url : Text
  pub accept : Text
  pub authorization : Authorization

-- An error of http.Client.Do: a url.Error, with its text and the error inside, or another one.
pub data SendError : Type 0 where
  url_error : Text → Text → SendError
  other_error : Text → SendError

-- A body, read to its end or up to an error.
pub data Body : Type 0 where
  whole : Text → Body
  broken : Text → Body

pub record Response : Type 0 where
  pub status : ℕ
  pub digest : Text
  pub challenge : Text
  pub content_type : Text
  pub body : Body

pub record TokenPayload : Type 0 where
  pub token : Text
  pub access_token : Text
  pub expires_in : Signed

pub record Net : Type 0 where
  pub send : ℕ → Request → SendError ⊎ Response
  pub request_error : Text → Option Text
  pub encode_query : List (Text × Text) → Text
  pub sha256_hex : Text → Text
  pub index_digests : Text → Option (List Text)
  pub decode_token : Body → Text ⊎ TokenPayload

pub record HeadResult : Type 0 where
  pub digest : Text
  pub status : ℕ
  pub challenge : Text
  pub content_type : Text

pub record RemoteManifest : Type 0 where
  pub primary : Text
  pub children : List Text

abbrev pub manifest_accept : Text
manifest_accept =
    codes "application/vnd.docker.distribution.manifest.list.v2+json, "
    ++ codes "application/vnd.oci.image.index.v1+json, "
    ++ codes "application/vnd.docker.distribution.manifest.v2+json, "
    ++ codes "application/vnd.oci.image.manifest.v1+json"

unfoldable pub redact_err : SendError → Text
redact_err (url_error text inner) = inner
redact_err (other_error text) = text

-- An error, if there is one, comes before the value.
unfoldable pub unless_error {ℓ} : {A : Type ℓ} → Option Text → Text ⊎ A → Text ⊎ A
unless_error none value = value
unless_error (some e) value = inl e

unfoldable pub with_token : Text → Authorization
with_token [] = no_authorization
with_token (c ∷ cs) = bearer (c ∷ cs)

unfoldable pub head_of : SendError ⊎ Response → Text ⊎ HeadResult
unfolding redact_err
head_of (inl e) = inl (codes "registry unreachable: " ++ redact_err e)
head_of (inr r) = inr (record {
  digest = r.digest;
  status = r.status;
  challenge = r.challenge;
  content_type = r.content_type;
})

abbrev manifest_request : Method → Reference → Text → Request
manifest_request method ref token = record {
  method = method;
  url = manifest_url ref;
  accept = manifest_accept;
  authorization = with_token token;
}

-- `headManifest`, after n requests.
unfoldable pub head_manifest : Net → ℕ → Reference → Text → Text ⊎ HeadResult
unfolding head_of unless_error manifest_url with_token
head_manifest net n ref token =
    unless_error (net.request_error (manifest_url ref))
      (head_of (net.send n (manifest_request head_method ref token)))

unfoldable pub digest_or : Text → Text → Text
digest_or [] other = other
digest_or (c ∷ cs) other = c ∷ cs

unfoldable pub body_of : (Text → Text) → Text → Body → Text ⊎ (Text × Text)
unfolding digest_or
body_of sha256_hex digest (broken e) = inl e
body_of sha256_hex digest (whole body) =
    let body = take 4194304 body in
    inr (digest_or digest (codes "sha256:" ++ sha256_hex body), body)

unfoldable pub manifest_answer : (Text → Text) → SendError ⊎ Response → Text ⊎ (Text × Text)
unfolding redact_err body_of format_int
manifest_answer sha256_hex (inl e) = inl (codes "registry unreachable: " ++ redact_err e)
manifest_answer sha256_hex (inr r) =
    if r.status == 200
    then body_of sha256_hex r.digest r.body
    else inl (codes "registry returned " ++ format_int r.status)

-- `getManifest`, after n requests.
unfoldable pub get_manifest : Net → ℕ → Reference → Text → Text ⊎ (Text × Text)
unfolding manifest_answer unless_error manifest_url with_token
get_manifest net n ref token =
    unless_error (net.request_error (manifest_url ref))
      (manifest_answer net.sha256_hex (net.send n (manifest_request get_method ref token)))

unfoldable pub is_index : Text → Bool
unfolding contains
is_index content_type =
    contains content_type (codes "manifest.list") || contains content_type (codes "image.index")

-- The error for a status other than 200.
unfoldable pub status_error : ℕ → Option Text
unfolding format_int
status_error status =
    if status == 200
    then none
    else if status == 404
    then some (codes "tag not found upstream")
    else if status == 401 || status == 403
    then some (codes "registry denied access")
    else if status == 429
    then some (codes "registry rate limited")
    else some (codes "registry returned " ++ format_int status)

unfoldable pub digests_in : Option (List Text) → List Text
digests_in none = []
digests_in (some digests) = keep_if (λ d. not (text_eq d [])) digests

unfoldable pub manifest_from : Net → HeadResult → Text ⊎ (Text × Text) → Text ⊎ RemoteManifest
unfolding is_index digests_in digest_or
manifest_from net head (inl e) = inl e
manifest_from net head (inr (digest, body)) = inr (record {
  primary = digest_or head.digest digest;
  children = if is_index head.content_type then digests_in (net.index_digests body) else [];
})

unfoldable pub contains_digest : RemoteManifest → Text → Bool
contains_digest m digest = text_eq digest m.primary || any_of (λ d. text_eq d digest) m.children
