-- ===== src/Registry/Reference/Canonical.antt =====
-- internal/registry/reference.go: ParseReference on the key that RepoKey and the tag make.
use homelab_dashboard.Prelude.{
  ℕ, true, false, Option, none, some, [], ◌∷◌, ◌++◌, ◌==◌, Text, codes, text_eq, ◌≡◌, ◌≢◌, refl,
  sym, subst, ap, ◌∙◌, ◌⊎◌, inl, inr, arith, All-append, Bool-cases, Option-cases,
}
use homelab_dashboard.Prelude.Strings.{
  last_or, Without, cut, cut_last, cut-append, has_prefix, contains, trim_prefix-append,
  trim_prefix_without,
}
use homelab_dashboard.Registry.Reference.{
  Reference, parsed, docker_hub_registry, is_local_id, looks_like_registry, is_hub_alias,
  in_library, parse_reference, repo_key, located, refer, split_tag, tagged, without_error,
  without_alias, before_digest,
}

-- The last occurrence of a separator is the one before a text without it.
cut_last-Without : (b : Text) (sep : ℕ) → Without sep b → cut_last b sep ≡ none
unfolding cut_last
cut_last-Without [] sep h = refl
cut_last-Without (c ∷ b) sep (ne, h) = ground (arith, cut_last-Without b sep h)

cut_last-append : (a b : Text) (sep : ℕ) → Without sep b → cut_last (a ++ sep ∷ b) sep ≡ some (a, b)
unfolding cut_last
cut_last-append [] b sep h = rw (cut_last-Without b sep h) (ground arith)
cut_last-append (c ∷ a) b sep h = rw (cut_last-append a b sep h) refl

cut-Without : (a : Text) (sep : ℕ) → Without sep a → cut a sep ≡ none
unfolding cut
cut-Without [] sep h = refl
cut-Without (c ∷ a) sep (ne, h) = ground (arith, cut-Without a sep h)

contains-slash : (a b : Text) → contains (a ++ b'/' ∷ b) (codes "/") ≡ true
unfolding contains has_prefix
contains-slash [] b = ground arith
contains-slash (c ∷ a) b = ground (arith, contains-slash a b)

extended : Option (Text × Text) → Text → Option (Text × Text)
extended none s = none
extended (some (a, b)) s = some (a, b ++ s)

-- A text without the separator, put at the end, lies after the last occurrence.
cut_last-extended :
    (a b : Text) (sep : ℕ) → Without sep b → cut_last (a ++ b) sep ≡ extended (cut_last a sep) b
unfolding extended cut_last
cut_last-extended [] b sep h = cut_last-Without b sep h
cut_last-extended (c ∷ a) b sep h =
    rw (cut_last-extended a b sep h)
      elim (Option-cases (cut_last a sep)) [ inl e ↦ rw e (ground arith) | inr (p, e) ↦ rw e refl ]

abbrev Joins : ℕ → Text → Option (Text × Text) → Type 0
Joins sep s none = Unit
Joins sep s (some (a, b)) = s ≡ a ++ sep ∷ b

Joins-last_or :
    (c sep : ℕ) (s : Text) (o : Option (Text × Text))
    → Joins sep s o
    → Joins sep (c ∷ s) (last_or c sep s o)
Joins-last_or c sep s none h = elim (Bool-cases (c == sep)) [
  | inl e ↦ rw e (ground arith)
  | inr e ↦ rw e tt
]
Joins-last_or c sep s (some (a, b)) h = ap (λ t. c ∷ t) h

-- What the last occurrence cuts is the text.
cut_last-Joins : (a : Text) (sep : ℕ) → Joins sep a (cut_last a sep)
unfolding cut_last
cut_last-Joins [] sep = tt
cut_last-Joins (c ∷ a) sep = Joins-last_or c sep a (cut_last a sep) (cut_last-Joins a sep)

-- The tag is what follows the last colon, and the name all before it.
split_tag_lem :
    (name tag other : Text)
    → Without b'/' tag
    → Without b':' tag
    → split_tag (name ++ b':' ∷ tag, other) (cut_last (name ++ b':' ∷ tag) b'/') ≡ (name, tag)
unfolding split_tag tagged extended
split_tag_lem name tag other slash colon =
    rw (cut_last-extended name (b':' ∷ tag) b'/' (ground arith, slash))
      elim (Option-cases (cut_last name b'/')) [
        | inl e ↦ rw (e, cut_last-append name tag b':' colon) refl
        | inr ((start, end), e) ↦
            rw
              (
                e,
                cut_last-append (b'/' ∷ end) tag b':' colon,
                subst (Joins b'/' name) e (cut_last-Joins name b'/'),
              )
              refl
      ]

-- A tag that an image can carry.
unfoldable pub IsTag : Text → Type 0
IsTag tag = (tag ≢ []) × Without b'@' tag × Without b'/' tag × Without b':' tag

-- The two halves of the place in which `located` finds a name.
place : Text → Text × Text
unfolding without_alias located cut
place name = without_alias (located name (cut name b'/'))

without_error_tag : (tag : Text) (r : Reference) → tag ≢ [] → without_error tag r ≡ parsed r
unfolding without_error
without_error_tag [] r ne = elim (ne refl) [ ]
without_error_tag (c ∷ tag) r ne = refl

not_empty : (name : Text) (c : ℕ) (s : Text) → text_eq (name ++ c ∷ s) [] ≡ false
unfolding text_eq
not_empty [] c s = refl
not_empty (d ∷ name) c s = refl

-- A name and a tag parse to the place of the name, with the tag.
parse_reference_tagged :
    (name tag : Text)
    → Without b'@' name
    → IsTag tag
    → is_local_id (name ++ b':' ∷ tag) ≡ false
    → parse_reference (name ++ b':' ∷ tag)
      ≡ parsed (record {
        registry = (place name).0;
        repository = (place name).1;
        tag = tag;
        original = name ++ b':' ∷ tag;
      })
unfolding parse_reference refer place before_digest IsTag
parse_reference_tagged name tag at (ne, no_at, no_slash, no_colon) remote =
    rw
      (
        not_empty name b':' tag,
        remote,
        cut-Without (name ++ b':' ∷ tag) b'@'
            (All-append (λ c. c ≢ b'@') name (b':' ∷ tag) at (ground arith, no_at)),
        split_tag_lem name tag (codes "latest") no_slash no_colon,
      )
      (without_error_tag tag _ ne)

-- A repository on a registry of its own.
unfoldable pub IsPrivate : Reference → Type 0
IsPrivate r =
    (looks_like_registry r.registry ≡ true)
    × (is_hub_alias r.registry ≡ false)
    × (text_eq r.registry docker_hub_registry ≡ false)
    × Without b'/' r.registry
    × Without b'@' r.registry
    × Without b'@' r.repository

-- An image of the library of Docker Hub.
unfoldable pub IsOfficial : Reference → Type 0
IsOfficial r =
    (r.registry ≡ docker_hub_registry)
    × ((name : Text) × (r.repository ≡ codes "library/" ++ name)
        × Without b'/' name
        × Without b'@' name)

-- An image of a user of Docker Hub.
unfoldable pub IsUser : Reference → Type 0
IsUser r =
    (r.registry ≡ docker_hub_registry)
    × (has_prefix r.repository (codes "library/") ≡ false)
    × Without b'@' r.repository
    × ((user rest : Text) × (r.repository ≡ user ++ b'/' ∷ rest)
        × (looks_like_registry user ≡ false)
        × Without b'/' user)

unfoldable pub IsCanonical : Reference → Type 0
IsCanonical r = IsTag r.tag × (IsPrivate r ⊎ (IsOfficial r ⊎ IsUser r))

-- The key of a reference, as a name, is found at the registry and repository of the reference.
IsFound : Reference → Type 0
IsFound r = (place (repo_key r) ≡ (r.registry, r.repository)) × Without b'@' (repo_key r)

private_place : (r : Reference) → IsPrivate r → IsFound r
unfolding IsPrivate IsFound place located without_alias repo_key
private_place r (looks, alias, hub, slash, at, at_rest) =
    rw (hub, cut-append r.registry r.repository b'/' slash, looks, alias)
      (refl, All-append (λ c. c ≢ b'@') r.registry (b'/' ∷ r.repository) at (ground arith, at_rest))

contains-Without : (s : Text) → Without b'/' s → contains s (codes "/") ≡ false
unfolding contains has_prefix
contains-Without [] h = refl
contains-Without (c ∷ s) (ne, h) = ground (arith, contains-Without s h)

official_place : (r : Reference) → IsOfficial r → IsFound r
unfolding IsOfficial IsFound place located without_alias repo_key in_library is_hub_alias text_eq
official_place r (hub, (name, repository, slash, at)) =
    rw
      (
        hub,
        repository,
        trim_prefix-append (codes "library/") name,
        cut-Without name b'/' slash,
        contains-Without name slash,
      )
      (refl, at)

user_place : (r : Reference) → IsUser r → IsFound r
unfolding IsUser IsFound place located without_alias repo_key in_library is_hub_alias text_eq
user_place r (hub, library, at, (user, rest, repository, looks, slash)) =
    rw
      (
        hub,
        trim_prefix_without r.repository (codes "library/") library,
        repository,
        cut-append user rest b'/' slash,
        looks,
        contains-slash user rest,
      )
      (refl, subst (Without b'@') repository at)

found : (r : Reference) → IsPrivate r ⊎ (IsOfficial r ⊎ IsUser r) → IsFound r
found r (inl p) = private_place r p
found r (inr (inl o)) = official_place r o
found r (inr (inr u)) = user_place r u

-- A reference with a tag, which is on a registry of its own, in the library of Docker Hub or
-- of a user of Docker Hub, is what ParseReference returns for its key with the tag, unless that
-- text looks like a local id.
pub parse_reference-repo_key :
    (r : Reference)
    → IsCanonical r
    → r.original ≡ repo_key r ++ b':' ∷ r.tag
    → is_local_id (repo_key r ++ b':' ∷ r.tag) ≡ false
    → parse_reference (repo_key r ++ b':' ∷ r.tag) ≡ parsed r
unfolding IsCanonical IsFound
parse_reference-repo_key r (tag, kind) written remote =
    let (at_place, at) = found r kind in
    parse_reference_tagged (repo_key r) r.tag at tag remote ∙ rw (at_place, sym written) refl
