-- ===== src/Registry/Tokens/Cache.antt =====
-- internal/registry/checker.go: what the results of remoteDigests and fetchToken say of the
-- registry and of the token cache.
use homelab_dashboard.Prelude.{
  ℕ, ◌≡◌, ◌≢◌, ◌⊎◌, inl, inr, refl, subst, not, ◌&&◌, Option, none, some, [], ◌∷◌, Text, text_eq,
  ◌==◌, arith, Bool-cases,
}
use homelab_dashboard.Prelude.Assoc.{Map, insert}
use homelab_dashboard.Prelude.Decimal.{Signed}
use homelab_dashboard.Registry.Reference.{Reference}
use homelab_dashboard.Registry.Manifest.{
  Net, Request, HeadResult, RemoteManifest, SendError, Response, TokenPayload, head_manifest,
  get_manifest, status_error, digest_or, manifest_from, unless_error,
}
use homelab_dashboard.Registry.Tokens.{
  RegistryCredential, CachedToken, token_key, cached_token, remote_digests, fetch_token,
  manifest_after, after_head, with_fetched, answer_head, text_of, store_token, keep_payload,
  token_answer, token_at, requested_token,
}

-- A manifest is one for a HEAD answer of status 200, whose digest it has where there is one.
pub IsConfirmed : RemoteManifest → HeadResult → Type 0
IsConfirmed m head = (head.status ≡ 200) × (head.digest ≢ [] → m.primary ≡ head.digest)

digest_or_head : (a b : Text) → a ≢ [] → digest_or a b ≡ a
unfolding digest_or
digest_or_head [] b ne = elim (ne refl) [ ]
digest_or_head (c ∷ cs) b ne = refl

-- What holds of a value holds of a result that is not an error.
Holds : {A : Type 0} → (A → Type 0) → Text ⊎ A → Type 0
Holds P (inl e) = Unit
Holds P (inr a) = P a

unless_error-Holds :
    {A : Type 0} (P : A → Type 0) (o : Option Text) (r : Text ⊎ A)
    → (o ≡ none → Holds P r)
    → Holds P (unless_error o r)
unfolding unless_error Holds
unless_error-Holds P none r h = h refl
unless_error-Holds P (some e) r h = tt

Holds-imp :
    {A : Type 0} {P Q : A → Type 0} (r : Text ⊎ A) → ((a : A) → P a → Q a) → Holds P r → Holds Q r
unfolding Holds
Holds-imp (inl e) f h = tt
Holds-imp (inr a) f h = f a h

manifest_from-Holds :
    (net : Net) (head : HeadResult) (got : Text ⊎ (Text × Text))
    → head.status ≡ 200
    → Holds (λ m. IsConfirmed m head) (manifest_from net head got)
unfolding manifest_from Holds IsConfirmed
manifest_from-Holds net head (inl e) ok = tt
manifest_from-Holds net head (inr (digest, body)) ok = (ok, digest_or_head head.digest digest)

status_error_ok : (status : ℕ) → status_error status ≡ none → status ≡ 200
unfolding status_error
status_error_ok status h = ground arith

module _ (net : Net) (creds : Map RegistryCredential) (now : ℕ) (ref : Reference) where
  -- The HEAD answer that a manifest rests on.
  pub HasHead : RemoteManifest → Type 0
  HasHead m =
      (n : ℕ) × (token : Text) × (head : HeadResult) × (head_manifest net n ref token ≡ inr head)
      × IsConfirmed m head

  after_head-Holds :
      (n k : ℕ) (token : Text) (r : Text ⊎ HeadResult)
      → head_manifest net n ref token ≡ r
      → Holds HasHead (after_head net creds now ref k token r)
  unfolding after_head manifest_after Holds HasHead
  after_head-Holds n k token (inl e) asked = tt
  after_head-Holds n k token (inr head) asked =
      unless_error-Holds HasHead (status_error head.status) _ (λ e.
        Holds-imp {P = λ m. IsConfirmed m head} {Q = HasHead} _
          (λ m confirmed. (n, token, head, asked, confirmed))
          (manifest_from-Holds net head (get_manifest net k ref token)
            (status_error_ok head.status e)))

  with_fetched-Holds :
      (r : (Text ⊎ Text) × Map CachedToken) → Holds HasHead (with_fetched net creds now ref r).0
  unfolding with_fetched Holds
  with_fetched-Holds (inl e, tokens) = tt
  with_fetched-Holds (inr token, tokens) = after_head-Holds 2 3 token _ refl

  answer_head-Holds :
      (token : Text) (tokens : Map CachedToken) (r : Text ⊎ HeadResult)
      → head_manifest net 0 ref token ≡ r
      → Holds HasHead (answer_head net creds now ref token tokens r).0
  unfolding answer_head Holds after_head
  answer_head-Holds token tokens (inl e) asked = tt
  answer_head-Holds token tokens (inr head) asked =
      elim (Bool-cases (head.status == 401 && not (text_eq head.challenge []))) [
        | inl e ↦ rw e (with_fetched-Holds (fetch_token net creds now ref head.challenge tokens))
        | inr e ↦ rw e (after_head-Holds 0 1 token (inr head) asked)
      ]

  -- A manifest comes only after a HEAD answer with status 200 to one of the requests of the
  -- check, and its digest is the one of that answer where the answer has one.
  pub remote_digests_confirmed :
      (tokens : Map CachedToken) (m : RemoteManifest)
      → (remote_digests net creds now ref tokens).0 ≡ inr m
      → HasHead m
  unfolding remote_digests Holds
  remote_digests_confirmed tokens m h =
      let token = text_of (cached_token now ref tokens) in
      subst (Holds HasHead) h (answer_head-Holds token tokens _ refl)

  -- What fetchToken makes of its result and the cache.
  pub Kept : Map CachedToken → (Text ⊎ Text) × Map CachedToken → Type 0
  Kept tokens (inl e, after) = after ≡ tokens
  Kept tokens (inr value, after) =
      (value ≢ [])
      × ((expires : ℕ) × (after
            ≡ insert (token_key ref) (record { value = value; expires = expires }) tokens))

  store_token-Kept :
      (tokens : Map CachedToken) (s : Signed) (value : Text)
      → Kept tokens (store_token now ref tokens s value)
  unfolding Kept store_token
  store_token-Kept tokens s [] = refl
  store_token-Kept tokens s (c ∷ cs) = (λ e. cc, (_, refl))

  keep_payload-Kept :
      (tokens : Map CachedToken) (r : Text ⊎ TokenPayload)
      → Kept tokens (keep_payload now ref tokens r)
  unfolding Kept keep_payload
  keep_payload-Kept tokens (inl e) = refl
  keep_payload-Kept tokens (inr p) = store_token-Kept tokens p.expires_in _

  token_answer-Kept :
      (tokens : Map CachedToken) (r : SendError ⊎ Response)
      → Kept tokens (token_answer net now ref tokens r)
  unfolding Kept token_answer keep_payload
  token_answer-Kept tokens (inl e) = refl
  token_answer-Kept tokens (inr r) = elim (Bool-cases (r.status == 200)) [
    | inl e ↦ rw e (keep_payload-Kept tokens (net.decode_token r.body))
    | inr e ↦ rw e refl
  ]

  requested_token-Kept :
      (request : Request) (tokens : Map CachedToken) (o : Option Text)
      → Kept tokens (requested_token net creds now ref request tokens o)
  unfolding Kept requested_token
  requested_token-Kept request tokens (some e) = refl
  requested_token-Kept request tokens none = token_answer-Kept tokens (net.send 1 request)

  token_at-Kept :
      (realm : Text) (params : Map Text) (tokens : Map CachedToken)
      → Kept tokens (token_at net creds now ref realm params tokens)
  unfolding Kept token_at
  token_at-Kept [] params tokens = refl
  token_at-Kept (c ∷ cs) params tokens = requested_token-Kept _ tokens _

  -- A token request that fails leaves the cache alone; one that succeeds gives a token that is
  -- not empty, and changes the entry of this registry and scope alone.
  pub fetch_token-Kept :
      (challenge : Text) (tokens : Map CachedToken)
      → Kept tokens (fetch_token net creds now ref challenge tokens)
  unfolding fetch_token
  fetch_token-Kept challenge tokens = token_at-Kept _ _ tokens
