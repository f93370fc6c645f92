-- ===== src/Registry/Checker.antt =====
-- internal/registry/checker.go, Check and checkOne, and internal/registry/run.go. The workers of
-- Check share the token cache under its lock; they are taken one after the other here, each with
-- its own answers of the network and its own time.
pub mod Newer
pub mod Stored
use homelab_dashboard.Prelude.{
  ℕ, ◌+◌, ◌/◌, Bool, true, false, not, ◌&&◌, ◌||◌, Option, none, some, List, [], ◌∷◌, ◌++◌, ◌⊎◌,
  inl, inr, Text, codes, text_eq, ◌==◌, if◌then◌else◌, map, length, count_if,
}
use homelab_dashboard.Prelude.Assoc.{Map, lookup, insert}
use homelab_dashboard.Prelude.Sorting.{sort_strings}
use homelab_dashboard.Store.Images.{
  ImageUpdateRecord, ImageTable, upsert_image_updates, prune_image_updates,
}
use homelab_dashboard.Registry.Reference.{
  Reference, Parsed, parsed, err_local_image, parse_reference, repo_key, normalize_repo_digest,
}
use homelab_dashboard.Registry.Manifest.{Net, RemoteManifest, contains_digest}
use homelab_dashboard.Registry.Tokens.{RegistryCredential, CachedToken, remote_digests}

pub record Result : Type 0 where
  pub image : Text
  pub local_digest : Text
  pub remote_digest : Text
  pub update_available : Bool
  pub error : Text

-- The fields of docker.ImageSummary that the check reads.
pub record ImageSummary : Type 0 where
  pub repo_tags : List Text
  pub repo_digests : List Text

-- out[key], the empty slice where the key is missing
unfoldable pub digests_of : Text → Map (List Text) → List Text
digests_of key out = elim (lookup key out) [ some ds ↦ ds | none ↦ [] ]

unfoldable pub append_digest : Text → Text → Map (List Text) → Map (List Text)
unfolding digests_of insert
append_digest key digest out = insert key (digests_of key out ++ digest ∷ []) out

-- The loop over the digests of an image, by repository.
unfoldable pub by_repository : List Text → Map (List Text) → Map (List Text)
unfolding append_digest normalize_repo_digest
by_repository [] out = out
by_repository (rd ∷ rds) out =
    let (repo, digest) = normalize_repo_digest rd in
    by_repository rds (if text_eq repo [] then out else append_digest repo digest out)

unfoldable pub under_key : Text → List Text → Map (List Text) → Map (List Text)
unfolding append_digest normalize_repo_digest
under_key key [] out = out
under_key key (rd ∷ rds) out =
    let digest = (normalize_repo_digest rd).1 in
    under_key key rds (if text_eq digest [] then out else append_digest key digest out)

unfoldable pub tag_key : Reference → Text
unfolding repo_key
tag_key ref = repo_key ref ++ b':' ∷ ref.tag

unfoldable pub under_tag : Parsed → List Text → Map (List Text) → Map (List Text)
unfolding under_key tag_key
under_tag (err_local_image ref) rds out = out
under_tag (parsed ref) rds out = under_key (tag_key ref) rds out

unfoldable pub by_tag : List Text → List Text → Map (List Text) → Map (List Text)
unfolding under_tag parse_reference
by_tag [] rds out = out
by_tag (tag ∷ tags) rds out = by_tag tags rds (under_tag (parse_reference tag) rds out)

unfoldable pub index_from : List ImageSummary → Map (List Text) → Map (List Text)
unfolding by_repository by_tag
index_from [] out = out
index_from (img ∷ imgs) out =
    index_from imgs (by_tag img.repo_tags img.repo_digests (by_repository img.repo_digests out))

unfoldable pub index_local_digests : List ImageSummary → Map (List Text)
unfolding index_from
index_local_digests local = index_from local []

unfoldable pub candidates_of : Reference → Map (List Text) → List Text
unfolding digests_of tag_key repo_key
candidates_of ref digests = elim (digests_of (tag_key ref) digests) [
  | [] ↦ digests_of (repo_key ref) digests
  | d ∷ ds ↦ d ∷ ds
]

unfoldable pub failed_result : Text → Text → Result
failed_result image e = record {
  image = image;
  local_digest = [];
  remote_digest = [];
  update_available = false;
  error = e;
}

unfoldable pub found_result : Text → RemoteManifest → Text → Bool → Result
found_result image remote digest available = record {
  image = image;
  local_digest = digest;
  remote_digest = remote.primary;
  update_available = available;
  error = [];
}

-- The loop over the candidates, which stops at the first that the registry has.
unfoldable pub compare_digests : Text → RemoteManifest → Text → List Text → Result
unfolding found_result contains_digest
compare_digests image remote first [] = found_result image remote first true
compare_digests image remote first (d ∷ ds) =
    if contains_digest remote d
    then found_result image remote d false
    else compare_digests image remote first ds

unfoldable pub answer_result : Text → Text → List Text → Text ⊎ RemoteManifest → Result
unfolding compare_digests failed_result
answer_result image first candidates (inl e) = failed_result image e
answer_result image first candidates (inr remote) = compare_digests image remote first candidates

unfoldable pub is_failure : Result → Bool
is_failure r =
    not (text_eq r.error [])
    && (not (text_eq r.error (codes "local build"))
        && not (text_eq r.error (codes "no local digest")))

unfoldable pub record_of : ℕ → Result → ImageUpdateRecord
record_of now r = record {
  image = r.image;
  local_digest = r.local_digest;
  remote_digest = r.remote_digest;
  update_available = r.update_available;
  checked_at = now / 1_000_000_000;
  error = r.error;
}

unfoldable pub lookup_error : List Result → Option Text
unfolding is_failure count_if
lookup_error results =
    let all_failed = count_if is_failure results == length results in
    elim results [
      | [] ↦ none
      | r ∷ rs ↦ if all_failed then some (codes "every registry lookup failed") else none
    ]

-- The errors of the two statements decide; the last one is of the lookups.
unfoldable pub pruned : List Result → Option Text × ImageTable → Option Text × ImageTable
unfolding lookup_error
pruned results (some e, table) = (some e, table)
pruned results (none, table) = (lookup_error results, table)

unfoldable pub stored :
    Option Text → List Text → List Result → Option Text × ImageTable → Option Text × ImageTable
unfolding pruned prune_image_updates
stored fault images results (some e, table) = (some e, table)
stored fault images results (none, table) = pruned results (prune_image_updates fault images table)

module _ (creds : Map RegistryCredential) where
  unfoldable pub check_candidates :
      Net → ℕ → Text → Reference → List Text → Map CachedToken → Result × Map CachedToken
  unfolding answer_result remote_digests failed_result
  check_candidates net now image ref [] tokens =
      (failed_result image (codes "no local digest"), tokens)
  check_candidates net now image ref (d ∷ ds) tokens =
      let (remote, kept) = remote_digests net creds now ref tokens in
      (answer_result image d (d ∷ ds) remote, kept)

  unfoldable pub check_parsed :
      Net → ℕ → Text → Map (List Text) → Parsed → Map CachedToken → Result × Map CachedToken
  unfolding check_candidates failed_result candidates_of
  check_parsed net now image digests (err_local_image ref) tokens =
      (failed_result image (codes "local build"), tokens)
  check_parsed net now image digests (parsed ref) tokens =
      check_candidates net now image ref (candidates_of ref digests) tokens

  -- `checkOne`
  unfoldable pub check_one :
      Net → ℕ → Text → Map (List Text) → Map CachedToken → Result × Map CachedToken
  unfolding check_parsed parse_reference
  check_one net now image digests tokens =
      check_parsed net now image digests (parse_reference image) tokens

  module _ (net : Text → Net) (clock : Text → ℕ) (cancelled : Text → Bool) where
    unfoldable pub check_each :
        List Text → Map (List Text) → Map CachedToken → List Result × Map CachedToken
    unfolding check_one failed_result
    check_each [] digests tokens = ([], tokens)
    check_each (image ∷ images) digests tokens =
        let cancel : Result × Map CachedToken = (failed_result image (codes "cancelled"), tokens) in
        let checked = check_one (net image) (clock image) image digests tokens in
        let (result, kept) = if cancelled image then cancel else checked in
        let (results, left) = check_each images digests kept in (result ∷ results, left)

    -- `Check`
    unfoldable pub check :
        List Text → List ImageSummary → Map CachedToken → List Result × Map CachedToken
    unfolding check_each index_local_digests
    check images local tokens = check_each images (index_local_digests local) tokens

    unfoldable pub listed :
        ℕ
        → Option Text
        → Option Text
        → List Text
        → Map CachedToken
        → Text ⊎ List ImageSummary
        → ImageTable
        → Option Text × ImageTable
    unfolding stored check upsert_image_updates record_of
    listed now upsert_fault prune_fault images tokens (inl e) table =
        (some (codes "list local images: " ++ e), table)
    listed now upsert_fault prune_fault images tokens (inr local) table =
        let results = (check images local tokens).0 in
        stored prune_fault images results
          (upsert_image_updates upsert_fault (map (record_of now) results) table)

    -- `RunCheck`, with the answer of ListImages and the errors of the two writes.
    unfoldable pub run_check :
        ℕ
        → Option Text
        → Option Text
        → List Text
        → Map CachedToken
        → Text ⊎ List ImageSummary
        → ImageTable
        → Option Text × ImageTable
    unfolding listed sort_strings prune_image_updates
    run_check now upsert_fault prune_fault [] tokens local table =
        prune_image_updates prune_fault [] table
    run_check now upsert_fault prune_fault (i ∷ is) tokens local table =
        listed now upsert_fault prune_fault (sort_strings (i ∷ is)) tokens local table
