-- ===== src/Registry/Checker/Stored.antt =====
-- internal/registry/run.go: the rows that RunCheck leaves in the table.
use homelab_dashboard.Prelude.{
  ℕ, ◌≡◌, ◌⊎◌, inl, inr, refl, sym, ap, ap₂, ◌∙◌, subst, Bool, true, none, List, [], ◌∷◌, Text, map,
  In, Bool-cases,
}
use homelab_dashboard.Prelude.Assoc.{Map, lookup}
use homelab_dashboard.Prelude.Sorting.{sort_strings, text_less, In-sort_with}
use homelab_dashboard.Store.Images.{
  ImageUpdateRecord, ImageTable, upsert_image_updates, prune_image_updates, keep_rows, is_member,
  is_member-In, prune_image_updates_rows, lookup-keep_rows, FoundIn, upsert_rows-FoundIn,
}
use homelab_dashboard.Registry.Reference.{
  Reference, Parsed, parsed, err_local_image, parse_reference,
}
use homelab_dashboard.Registry.Manifest.{Net, RemoteManifest, contains_digest}
use homelab_dashboard.Registry.Tokens.{RegistryCredential, CachedToken}
use homelab_dashboard.Registry.Checker.{
  Result, ImageSummary, compare_digests, found_result, failed_result, answer_result,
  check_candidates, check_parsed, check_one, check_each, check, record_of, pruned, stored, listed,
  run_check, index_local_digests,
}

compare_digests_image :
    (image first : Text) (m : RemoteManifest) (ds : List Text)
    → (compare_digests image m first ds).image ≡ image
unfolding compare_digests found_result
compare_digests_image image first m [] = refl
compare_digests_image image first m (d ∷ ds) = elim (Bool-cases (contains_digest m d)) [
  | inl e ↦ rw e refl
  | inr e ↦ rw e (compare_digests_image image first m ds)
]

answer_result_image :
    (image first : Text) (ds : List Text) (remote : Text ⊎ RemoteManifest)
    → (answer_result image first ds remote).image ≡ image
unfolding answer_result failed_result
answer_result_image image first ds (inl e) = refl
answer_result_image image first ds (inr m) = compare_digests_image image first m ds

-- The rows of a table after pruning, for names that are kept and names that are not.
kept_rows :
    (P : ImageUpdateRecord → Type 0) (k : Text) (keep : List Text) (table : ImageTable)
    → (In k keep → FoundIn P k table)
    → (In k keep → FoundIn P k (keep_rows keep table))
      × ((In k keep → ⊥) → lookup k (keep_rows keep table) ≡ none)
unfolding FoundIn
kept_rows P k keep table found = elim (Bool-cases (is_member k keep)) [
  | inl e ↦ (
    λ i. let (r, p, named, at) = found i in (r, p, named, lookup-keep_rows k keep table ∙ rw e at),
    λ out. elim (out ((is_member-In k keep).0 e)) [ ],
  )
  | inr e ↦ (
    λ i. let held : is_member k keep ≡ true = (is_member-In k keep).1 i in cc,
    λ out. lookup-keep_rows k keep table ∙ rw e refl,
  )
]

module _ (creds : Map RegistryCredential) where
  check_candidates_image :
      (net : Net) (now : ℕ) (image : Text) (ref : Reference) (ds : List Text)
      (tokens : Map CachedToken)
      → (check_candidates creds net now image ref ds tokens).0.image ≡ image
  unfolding check_candidates failed_result
  check_candidates_image net now image ref [] tokens = refl
  check_candidates_image net now image ref (d ∷ ds) tokens = answer_result_image image d (d ∷ ds) _

  check_parsed_image :
      (net : Net) (now : ℕ) (image : Text) (digests : Map (List Text)) (p : Parsed)
      (tokens : Map CachedToken)
      → (check_parsed creds net now image digests p tokens).0.image ≡ image
  unfolding check_parsed failed_result
  check_parsed_image net now image digests (err_local_image ref) tokens = refl
  check_parsed_image net now image digests (parsed ref) tokens =
      check_candidates_image net now image ref _ tokens

  module _ (net : Text → Net) (clock : Text → ℕ) (cancelled : Text → Bool) where
    -- The results are those of the images, in their order.
    check_each_images :
        (images : List Text) (digests : Map (List Text)) (tokens : Map CachedToken)
        → map (λ r. r.image) (check_each creds net clock cancelled images digests tokens).0 ≡ images
    unfolding check_each check_one failed_result
    check_each_images [] digests tokens = refl
    check_each_images (image ∷ images) digests tokens = elim (Bool-cases (cancelled image)) [
      | inl e ↦ rw e (ap (λ t. image ∷ t) (check_each_images images digests tokens))
      | inr e ↦ rw e (
          ap₂ (λ i t. i ∷ t)
            (check_parsed_image (net image) (clock image) image digests (parse_reference image)
              tokens)
            (check_each_images images digests _))
    ]

    -- The results of a run: those of Check on the sorted images.
    pub results_of : List Text → List ImageSummary → Map CachedToken → List Result
    results_of images local tokens =
        (check creds net clock cancelled (sort_strings images) local tokens).0

    record_images :
        (now : ℕ) (rs : List Result)
        → map (λ r. r.image) (map (record_of now) rs) ≡ map (λ r. r.image) rs
    unfolding record_of
    record_images now [] = refl
    record_images now (r ∷ rs) = ap (λ t. r.image ∷ t) (record_images now rs)

    -- The rows after the two writes.
    after_writes :
        (now : ℕ) (images : List Text) (tokens : Map CachedToken) (local : List ImageSummary)
        (table : ImageTable) (k : Text)
        → let after =
            (listed creds net clock cancelled now none none
              (sort_strings images)
              tokens
              (inr local)
              table).1 in
          (In k (sort_strings images)
            → FoundIn (λ r. In r (map (record_of now) (results_of images local tokens))) k after)
          × ((In k (sort_strings images) → ⊥) → lookup k after ≡ none)
    unfolding listed stored pruned results_of check upsert_image_updates
    after_writes now images tokens local table k =
        let names = check_each_images (sort_strings images) (index_local_digests local) tokens in
        rw (prune_image_updates_rows (sort_strings images) _) (
          kept_rows _ k (sort_strings images) _ (λ i.
            upsert_rows-FoundIn k _ table (subst (In k) (sym (record_images now _ ∙ names)) i)))

    -- After a run whose writes succeed, each of the images has a row, which is one of its results
    -- with its name, and no other image has one.
    pub run_check_rows :
        (now : ℕ) (images : List Text) (tokens : Map CachedToken) (local : List ImageSummary)
        (table : ImageTable) (k : Text)
        → (In k images
            → FoundIn
                (λ r. In r (map (record_of now) (results_of images local tokens)))
                k
                (run_check creds net clock cancelled now none none images tokens
                  (inr local)
                  table).1)
          × ((In k images → ⊥)
              → lookup k
                  (run_check creds net clock cancelled now none none images tokens
                    (inr local)
                    table).1
                ≡ none)
    unfolding run_check prune_image_updates lookup sort_strings
    run_check_rows now [] tokens local table k = (λ i. elim i [ ], λ out. refl)
    run_check_rows now (i ∷ is) tokens local table k =
        let (found, absent) = after_writes now (i ∷ is) tokens local table k in
        let sorted = In-sort_with text_less k (i ∷ is) in
        (λ at. found (sorted.1 at), λ out. absent (λ at. out (sorted.0 at)))
