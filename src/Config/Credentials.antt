-- ===== src/Config/Credentials.antt =====
-- internal/config/config.go: parseRegistryAuth.
use homelab_dashboard.Prelude.{
  ◌||◌, Option, none, some, List, [], ◌∷◌, ◌++◌, ◌⊎◌, inl, inr, Text, codes, text_eq, if◌then◌else◌,
}
use homelab_dashboard.Prelude.Assoc.{Map, insert}
use homelab_dashboard.Prelude.Strings.{trim_space, cut, split_on}
use homelab_dashboard.Registry.Tokens.{RegistryCredential}
use homelab_dashboard.Config.{redact}

module _ (quote : Text → Text) where
  -- The user and the password of one entry, stored under the trimmed host.
  unfoldable pub store_credential :
      Text → Option (Text × Text) → Map RegistryCredential → Text ⊎ Map RegistryCredential
  unfolding trim_space insert
  store_credential host none out =
      inl (codes "REGISTRY_AUTH entry for " ++ quote host ++ codes " must include user:password")
  store_credential host (some (user, pass)) out =
      if text_eq user [] || text_eq pass []
      then inl
          (codes "REGISTRY_AUTH entry for " ++ quote host ++ codes " must include user:password")
      else inr (insert (trim_space host) (record { username = user; password = pass }) out)

  unfoldable pub add_entry :
      Text → Option (Text × Text) → Map RegistryCredential → Text ⊎ Map RegistryCredential
  unfolding store_credential cut redact
  add_entry entry none out = inl (
      codes "REGISTRY_AUTH entry "
      ++ quote (redact entry)
      ++ codes " must look like host=user:password")
  add_entry entry (some (host, cred)) out = store_credential host (cut cred b':') out

  -- The loop over the entries, which the first error ends.
  unfoldable pub add_entries : List Text → Map RegistryCredential → Text ⊎ Map RegistryCredential
  unfolding add_entry trim_space cut
  add_entries [] out = inr out
  add_entries (raw ∷ entries) out =
      let entry = trim_space raw in
      let skipped = add_entries entries out in
      if text_eq entry [] then skipped else elim (add_entry entry (cut entry b'=') out) [
        | inl e ↦ inl e
        | inr more ↦ add_entries entries more
      ]

  unfoldable pub parse_registry_auth : Text → Text ⊎ Map RegistryCredential
  unfolding add_entries split_on trim_space
  parse_registry_auth raw =
      let raw = trim_space raw in
      let entries = split_on b',' raw in
      if text_eq raw [] then inr [] else add_entries (entries.0 ∷ entries.1) []
