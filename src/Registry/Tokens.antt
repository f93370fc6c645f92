-- ===== src/Registry/Tokens.antt =====
-- internal/registry/checker.go: the token cache of the Checker, fetchToken and remoteDigests.
-- Times are nanoseconds. A step returns the cache that it leaves beside its result.
pub mod Cache
use homelab_dashboard.Prelude.{
  ℕ, ◌+◌, ◌-◌, ◌*◌, ◌%◌, ◌^◌, Bool, true, false, not, ◌&&◌, ◌||◌, Option, none, some, List, [], ◌∷◌,
  ◌++◌, ◌⊎◌, inl, inr, Text, codes, text_eq, ltb, leb, ◌==◌, if◌then◌else◌,
}
use homelab_dashboard.Prelude.Assoc.{Map, lookup, insert}
use homelab_dashboard.Prelude.Decimal.{format_int, Signed, plus, minus}
use homelab_dashboard.Registry.Reference.{Reference, docker_hub_registry, scope}
use homelab_dashboard.Registry.Challenge.{parse_challenge}
use homelab_dashboard.Registry.Manifest.{
  get_method, Authorization, no_authorization, basic, Request, SendError, Response, TokenPayload,
  Net, HeadResult, RemoteManifest, redact_err, unless_error, head_manifest, digest_or, get_manifest,
  status_error, manifest_from,
}

pub record RegistryCredential : Type 0 where
  pub username : Text
  pub password : Text

-- The value, and the time after which it is not used.
pub record CachedToken : Type 0 where
  pub value : Text
  pub expires : ℕ

unfoldable pub token_key : Reference → Text
unfolding scope
token_key ref = ref.registry ++ b'|' ∷ scope ref

unfoldable pub fresh_token : ℕ → Option CachedToken → Option Text
fresh_token now none = none
fresh_token now (some t) = if ltb t.expires now then none else some t.value

unfoldable pub cached_token : ℕ → Reference → Map CachedToken → Option Text
unfolding fresh_token lookup token_key
cached_token now ref tokens = fresh_token now (lookup (token_key ref) tokens)

unfoldable pub or_credential :
    Option RegistryCredential → Option RegistryCredential → Option RegistryCredential
or_credential (some cred) other = some cred
or_credential none other = other

unfoldable pub first_credential : Map RegistryCredential → List Text → Option RegistryCredential
unfolding or_credential lookup
first_credential creds [] = none
first_credential creds (alias ∷ aliases) =
    or_credential (lookup alias creds) (first_credential creds aliases)

unfoldable pub credential_for : Map RegistryCredential → Text → Option RegistryCredential
unfolding first_credential or_credential lookup
credential_for creds registry =
    let aliases : List Text =
      codes "docker.io" ∷ codes "index.docker.io" ∷ codes "hub.docker.com" ∷ [] in
    or_credential (lookup registry creds)
      (if text_eq registry docker_hub_registry then first_credential creds aliases else none)

unfoldable pub basic_auth : Option RegistryCredential → Authorization
basic_auth none = no_authorization
basic_auth (some cred) = basic cred.username cred.password

unfoldable pub param : Text → Map Text → Text
param key params = elim (lookup key params) [ some value ↦ value | none ↦ [] ]

-- The query of the token endpoint: no service where the challenge names none.
unfoldable pub token_query : Map Text → Reference → List (Text × Text)
unfolding param digest_or scope
token_query params ref =
    let service = param (codes "service") params in
    let wanted = (codes "scope", digest_or (param (codes "scope") params) (scope ref)) ∷ [] in
    if text_eq service [] then wanted else (codes "service", service) ∷ wanted

-- time.Duration(expires_in) * time.Second, as the 64 bits of an int64.
unfoldable pub ttl_bits : Signed → ℕ
ttl_bits (plus n) = n * 1_000_000_000 % 2 ^ 64
ttl_bits (minus n) = (2 ^ 64 - n * 1_000_000_000 % 2 ^ 64) % 2 ^ 64

-- The lifetime of a token: four minutes where it is not positive.
unfoldable pub ttl : Signed → ℕ
unfolding ttl_bits
ttl expires_in =
    let bits = ttl_bits expires_in in
    if bits == 0 || leb (2 ^ 63) bits then 240 * 1_000_000_000 else bits

unfoldable pub store_token :
    ℕ → Reference → Map CachedToken → Signed → Text → (Text ⊎ Text) × Map CachedToken
unfolding ttl insert token_key
store_token now ref tokens expires_in [] = (inl (codes "token endpoint returned no token"), tokens)
store_token now ref tokens expires_in (c ∷ cs) =
    let cached : CachedToken = record {
      value = c ∷ cs;
      expires = now + ttl expires_in - 30 * 1_000_000_000;
    } in
    (inr (c ∷ cs), insert (token_key ref) cached tokens)

unfoldable pub keep_payload :
    ℕ → Reference → Map CachedToken → Text ⊎ TokenPayload → (Text ⊎ Text) × Map CachedToken
unfolding store_token digest_or
keep_payload now ref tokens (inl e) = (inl (codes "token decode: " ++ e), tokens)
keep_payload now ref tokens (inr p) =
    store_token now ref tokens p.expires_in (digest_or p.token p.access_token)

unfoldable pub token_answer :
    Net → ℕ → Reference → Map CachedToken → SendError ⊎ Response → (Text ⊎ Text) × Map CachedToken
unfolding keep_payload redact_err format_int
token_answer net now ref tokens (inl e) =
    (inl (codes "token endpoint unreachable: " ++ redact_err e), tokens)
token_answer net now ref tokens (inr r) =
    if r.status == 200
    then keep_payload now ref tokens (net.decode_token r.body)
    else (inl (codes "token endpoint returned " ++ format_int r.status), tokens)

unfoldable pub text_of : Option Text → Text
text_of none = []
text_of (some s) = s

module _ (net : Net) (creds : Map RegistryCredential) (now : ℕ) (ref : Reference) where
  token_request : Map Text → Text → Request
  unfolding basic_auth credential_for token_query
  token_request params realm = record {
    method = get_method;
    url = realm ++ b'?' ∷ net.encode_query (token_query params ref);
    accept = [];
    authorization = basic_auth (credential_for creds ref.registry);
  }

  requested_token : Request → Map CachedToken → Option Text → (Text ⊎ Text) × Map CachedToken
  unfolding token_answer
  requested_token request tokens (some e) = (inl e, tokens)
  requested_token request tokens none = token_answer net now ref tokens (net.send 1 request)

  token_at : Text → Map Text → Map CachedToken → (Text ⊎ Text) × Map CachedToken
  unfolding requested_token token_request
  token_at [] params tokens = (inl (codes "registry challenge has no realm"), tokens)
  token_at (c ∷ cs) params tokens =
      let request = token_request params (c ∷ cs) in
      requested_token request tokens (net.request_error request.url)

  -- `fetchToken`, which sends the second request of a check.
  unfoldable pub fetch_token : Text → Map CachedToken → (Text ⊎ Text) × Map CachedToken
  unfolding token_at param parse_challenge
  fetch_token challenge tokens =
      let params = parse_challenge challenge in
      token_at (param (codes "realm") params) params tokens

  -- The manifest after a HEAD answer, whose status decides; n requests are sent.
  unfoldable pub manifest_after : ℕ → Text → HeadResult → Text ⊎ RemoteManifest
  unfolding unless_error status_error manifest_from get_manifest
  manifest_after n token head =
      unless_error (status_error head.status)
        (manifest_from net head (get_manifest net n ref token))

  unfoldable pub after_head : ℕ → Text → Text ⊎ HeadResult → Text ⊎ RemoteManifest
  unfolding manifest_after
  after_head n token (inl e) = inl e
  after_head n token (inr head) = manifest_after n token head

  unfoldable pub with_fetched :
      (Text ⊎ Text) × Map CachedToken → (Text ⊎ RemoteManifest) × Map CachedToken
  unfolding after_head head_manifest
  with_fetched (inl e, tokens) = (inl e, tokens)
  with_fetched (inr token, tokens) = (after_head 3 token (head_manifest net 2 ref token), tokens)

  unfoldable pub answer_head :
      Text → Map CachedToken → Text ⊎ HeadResult → (Text ⊎ RemoteManifest) × Map CachedToken
  unfolding with_fetched fetch_token manifest_after
  answer_head token tokens (inl e) = (inl e, tokens)
  answer_head token tokens (inr head) =
      let fetched = with_fetched (fetch_token head.challenge tokens) in
      if head.status == 401 && not (text_eq head.challenge [])
      then fetched
      else (manifest_after 1 token head, tokens)

  -- `remoteDigests`
  unfoldable pub remote_digests : Map CachedToken → (Text ⊎ RemoteManifest) × Map CachedToken
  unfolding answer_head text_of cached_token head_manifest
  remote_digests tokens =
      let token = text_of (cached_token now ref tokens) in
      answer_head token tokens (head_manifest net 0 ref token)
