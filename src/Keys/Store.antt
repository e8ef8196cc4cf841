-- ===== src/Keys/Store.antt =====
-- internal/storage/registry_store.go: how the credentials of a repository are split off, sealed and
-- put back. The columns hold values where the database holds their JSON; only the JSON of the secrets,
-- which is sealed, is a parameter. The fields of a repository that this code copies unread are `rest`.
use kutu.Prelude.{
  Text, List, [], ◌∷◌, Option, Bool, ◌&&◌, not, is_empty, any, map, filter, ◌==◌, if◌then◌else◌,
}
use kutu.Keys.{
  Result, ok, err, bad_request, not_found, storage, ◌>>=◌, Primitives, Manager, seal, open_envelope,
}
use kutu.Keys.Repository.{
  Repository, Row, Secrets, has_secret, meta_of, no_secrets, restore, secrets_of, strip, unlocked,
}

-- The record that repoRecord returns.
unfoldable pub columns : Text → Repository → Text → Row
unfolding strip
columns namespace repo sealed = record {
  namespace = namespace;
  name = repo.name;
  auth_meta = meta_of repo.auth;
  sealed = sealed;
  data_column = strip repo;
}

module _ (p : Primitives) (marshal : Secrets → Text) where
  -- sealRepoSecrets: the sealed column.
  unfoldable pub seal_repo_secrets : Option Manager → Option Text → Repository → Result Text
  unfolding seal unlocked has_secret secrets_of
  seal_repo_secrets mgr nonce repo =
      if not (has_secret (secrets_of repo))
      then ok []
      else if not (unlocked mgr)
      then err bad_request
      else seal p mgr nonce (marshal (secrets_of repo))

  unfoldable pub repo_record : Option Manager → Option Text → Text → Repository → Result Row
  unfolding seal_repo_secrets columns
  repo_record mgr nonce namespace repo = do
    sealed ← seal_repo_secrets mgr nonce repo
    ok (columns namespace repo sealed)

module _ (p : Primitives) (unmarshal : Text → Secrets) where
  abbrev pub secrets_or_blank : Result Text → Secrets
  secrets_or_blank (ok raw) = unmarshal raw
  secrets_or_blank (err e) = no_secrets

  -- The first half of openRepoSecrets.
  unfoldable pub open_secrets : Option Manager → Text → Secrets
  unfolding open_envelope unlocked
  open_secrets mgr sealed =
      if not (is_empty sealed) && unlocked mgr
      then secrets_or_blank (open_envelope p mgr sealed)
      else no_secrets

  unfoldable pub scan_repo : Option Manager → Row → Repository
  unfolding open_secrets restore
  scan_repo mgr row = restore row.auth_meta (open_secrets mgr row.sealed) row.data_column

  unfoldable pub load_registry_tree :
      Option Manager → List Text → List Row → List (Text × List Repository)
  unfolding scan_repo filter ◌==◌
  load_registry_tree mgr [] rows = []
  load_registry_tree mgr (ns ∷ namespaces) rows =
      (ns, map (scan_repo mgr) (filter (λ row. row.namespace == ns) rows))
      ∷ load_registry_tree mgr namespaces rows

abbrev pub addresses : Text → Text → Row → Bool
addresses namespace name row = row.namespace == namespace && row.name == name

-- The UPDATE statement: the rows at the address take the new columns.
unfoldable pub replace_rows : Row → List Row → List Row
unfolding ◌==◌
replace_rows new [] = []
replace_rows new (row ∷ rows) =
    (if addresses new.namespace new.name row then new else row) ∷ replace_rows new rows

unfoldable pub updated_rows : Row → List Row → Result (List Row)
unfolding replace_rows
updated_rows new rows =
    if any (addresses new.namespace new.name) rows
    then ok (replace_rows new rows)
    else err not_found

module _ (p : Primitives) (marshal : Secrets → Text) where
  -- `written` tells whether the statement runs.
  unfoldable pub update_repository :
      Option Manager → Option Text → Bool → Text → Repository → List Row → Result (List Row)
  unfolding repo_record updated_rows
  update_repository mgr nonce written namespace repo rows = do
    new ← repo_record p marshal mgr nonce namespace repo
    if written then updated_rows new rows else err storage
