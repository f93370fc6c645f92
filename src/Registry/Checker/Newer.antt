-- ===== src/Registry/Checker/Newer.antt =====
-- internal/registry/checker.go, checkOne: when an image has an update, and what an error leaves.
use homelab_dashboard.Prelude.{
  ℕ, ◌≡◌, ◌≢◌, ◌↔◌, ◌⊎◌, inl, inr, refl, subst, true, false, List, [], ◌∷◌, Text, All, Bool-cases,
}
use homelab_dashboard.Prelude.Assoc.{Map}
use homelab_dashboard.Registry.Reference.{
  Reference, Parsed, parsed, err_local_image, parse_reference,
}
use homelab_dashboard.Registry.Manifest.{Net, RemoteManifest, contains_digest}
use homelab_dashboard.Registry.Tokens.{RegistryCredential, CachedToken, remote_digests}
use homelab_dashboard.Registry.Checker.{
  Result, candidates_of, compare_digests, found_result, failed_result, answer_result,
  check_candidates, check_parsed, check_one,
}

-- The manifest has none of the digests.
abbrev Missing : RemoteManifest → List Text → Type 0
Missing m = All (λ d. contains_digest m d ≡ false)

compare_digests_available :
    (image first : Text) (m : RemoteManifest) (ds : List Text)
    → ((compare_digests image m first ds).update_available ≡ true) ↔ Missing m ds
unfolding compare_digests found_result
compare_digests_available image first m [] = (λ e. tt, λ all. refl)
compare_digests_available image first m (d ∷ ds) = elim (Bool-cases (contains_digest m d)) [
  | inl e ↦ rw e (λ h. cc, λ h. cc)
  | inr e ↦ rw e (
    λ h. (refl, (compare_digests_available image first m ds).0 h),
    λ h. (compare_digests_available image first m ds).1 h.1,
  )
]

-- The registry gave a manifest, and it has none of the digests.
abbrev Outdated : Text ⊎ RemoteManifest → List Text → Type 0
Outdated remote ds = (m : RemoteManifest) × (remote ≡ inr m) × Missing m ds

absurd_left : {P : Type 0} (e : Text) (ds : List Text) → Outdated (inl e) ds → P
absurd_left t ds (m, e, all) = cc

Missing-inr : (m : RemoteManifest) (ds : List Text) → Outdated (inr m) ds → Missing m ds
Missing-inr m ds (k, e, all) = let same : k ≡ m = cc in subst (λ x. Missing x ds) same all

answer_result_available :
    (image first : Text) (ds : List Text) (remote : Text ⊎ RemoteManifest)
    → ((answer_result image first ds remote).update_available ≡ true) ↔ Outdated remote ds
unfolding answer_result failed_result
answer_result_available image first ds (inl e) = (λ h. cc, λ h. absurd_left e ds h)
answer_result_available image first ds (inr m) = (
  λ h. (m, refl, (compare_digests_available image first m ds).0 h),
  λ h. (compare_digests_available image first m ds).1 (Missing-inr m ds h),
)

-- Whether the candidates have an update, on each of their cases.
check_candidates_available :
    (creds : Map RegistryCredential) (net : Net) (now : ℕ) (image : Text) (ref : Reference)
    (ds : List Text) (tokens : Map CachedToken)
    → ((check_candidates creds net now image ref ds tokens).0.update_available ≡ true)
      ↔ ((ds ≢ []) × Outdated (remote_digests net creds now ref tokens).0 ds)
unfolding check_candidates failed_result
check_candidates_available creds net now image ref [] tokens = (λ h. cc, λ h. elim (h.0 refl) [ ])
check_candidates_available creds net now image ref (d ∷ ds) tokens =
    let found =
      answer_result_available image d (d ∷ ds) (remote_digests net creds now ref tokens).0 in
    (λ h. (λ e. cc, found.0 h), λ h. found.1 h.1)

-- The reference of the image has local digests, and the registry none of them.
pub IsNewer : Map RegistryCredential → Net → ℕ → Map (List Text) → Map CachedToken → Parsed → Type 0
IsNewer creds net now digests tokens p =
    (ref : Reference) × (p ≡ parsed ref)
    × (candidates_of ref digests ≢ [])
    × Outdated (remote_digests net creds now ref tokens).0 (candidates_of ref digests)

check_parsed_available :
    (creds : Map RegistryCredential) (net : Net) (now : ℕ) (image : Text)
    (digests : Map (List Text)) (p : Parsed) (tokens : Map CachedToken)
    → ((check_parsed creds net now image digests p tokens).0.update_available ≡ true)
      ↔ IsNewer creds net now digests tokens p
unfolding check_parsed failed_result IsNewer
check_parsed_available creds net now image digests (err_local_image ref) tokens =
    (λ h. cc, λ (r, e, more, older). cc)
check_parsed_available creds net now image digests (parsed ref) tokens =
    let found =
      check_candidates_available creds net now image ref (candidates_of ref digests) tokens in
    (
      λ h. let more = found.0 h in (ref, refl, more.0, more.1),
      λ (r, e, some_left, older).
          let same : r ≡ ref = cc in
          found.1 (
            subst
              (λ x.
                (candidates_of x digests ≢ [])
                × Outdated (remote_digests net creds now x tokens).0 (candidates_of x digests))
              same (some_left, older)),
    )

-- An image has an update exactly if its text is a reference, there is a local digest of that
-- reference, and the registry answers with a manifest that has none of these digests.
pub check_one_available :
    (creds : Map RegistryCredential) (net : Net) (now : ℕ) (image : Text)
    (digests : Map (List Text)) (tokens : Map CachedToken)
    → ((check_one creds net now image digests tokens).0.update_available ≡ true)
      ↔ IsNewer creds net now digests tokens (parse_reference image)
unfolding check_one
check_one_available creds net now image digests tokens =
    check_parsed_available creds net now image digests (parse_reference image) tokens

-- An error leaves the rest of the result empty.
Blank : Result → Type 0
Blank r =
    r.error ≢ [] → (r.update_available ≡ false) × (r.remote_digest ≡ []) × (r.local_digest ≡ [])

failed_result-Blank : (image e : Text) → Blank (failed_result image e)
unfolding Blank failed_result
failed_result-Blank image e h = (refl, refl, refl)

compare_digests-Blank :
    (image first : Text) (m : RemoteManifest) (ds : List Text)
    → Blank (compare_digests image m first ds)
unfolding Blank compare_digests found_result
compare_digests-Blank image first m [] = λ h. elim (h refl) [ ]
compare_digests-Blank image first m (d ∷ ds) = elim (Bool-cases (contains_digest m d)) [
  | inl e ↦ rw e (λ h. elim (h refl) [ ])
  | inr e ↦ rw e (compare_digests-Blank image first m ds)
]

answer_result-Blank :
    (image first : Text) (ds : List Text) (remote : Text ⊎ RemoteManifest)
    → Blank (answer_result image first ds remote)
unfolding answer_result
answer_result-Blank image first ds (inl e) = failed_result-Blank image e
answer_result-Blank image first ds (inr m) = compare_digests-Blank image first m ds

check_candidates-Blank :
    (creds : Map RegistryCredential) (net : Net) (now : ℕ) (image : Text) (ref : Reference)
    (ds : List Text) (tokens : Map CachedToken)
    → Blank (check_candidates creds net now image ref ds tokens).0
unfolding check_candidates
check_candidates-Blank creds net now image ref [] tokens = failed_result-Blank image _
check_candidates-Blank creds net now image ref (d ∷ ds) tokens =
    answer_result-Blank image d (d ∷ ds) (remote_digests net creds now ref tokens).0

check_parsed-Blank :
    (creds : Map RegistryCredential) (net : Net) (now : ℕ) (image : Text)
    (digests : Map (List Text)) (p : Parsed) (tokens : Map CachedToken)
    → Blank (check_parsed creds net now image digests p tokens).0
unfolding check_parsed
check_parsed-Blank creds net now image digests (err_local_image ref) tokens =
    failed_result-Blank image _
check_parsed-Blank creds net now image digests (parsed ref) tokens =
    check_candidates-Blank creds net now image ref (candidates_of ref digests) tokens

-- A check that ends with an error, of whatever stage, announces no update and gives no digests.
pub check_one_error :
    (creds : Map RegistryCredential) (net : Net) (now : ℕ) (image : Text)
    (digests : Map (List Text)) (tokens : Map CachedToken)
    → (check_one creds net now image digests tokens).0.error ≢ []
    → ((check_one creds net now image digests tokens).0.update_available ≡ false)
      × ((check_one creds net now image digests tokens).0.remote_digest ≡ [])
      × ((check_one creds net now image digests tokens).0.local_digest ≡ [])
unfolding Blank check_one
check_one_error creds net now image digests tokens =
    check_parsed-Blank creds net now image digests (parse_reference image) tokens
