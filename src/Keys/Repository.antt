-- ===== src/Keys/Repository.antt =====
-- internal/service/registry.go and internal/storage/registry_store.go: a repository, its columns in the
-- table, and how its credentials are split off and put back. The columns hold values where the database
-- holds their JSON. The fields that this code copies unread are `rest` and `target`.
use kutu.Prelude.{
  Text, List, [], ◌∷◌, Option, none, some, Bool, false, ◌&&◌, ◌||◌, not, is_empty, any, map,
  if◌then◌else◌,
}
use kutu.Keys.{Manager, is_unlocked}

-- RegistryUpstreamAuth
pub record Auth : Type 0 where
  pub kind : Text
  pub username : Text
  pub password : Text
  pub token : Text
  pub header : Text
  pub value : Text

-- RegistryUpstream
pub record Upstream : Type 0 where
  pub prefix : Text
  pub url : Text
  pub auth : Option Auth
  pub ssh_key : Text

-- The replication settings: `target` stands for the fields beside the token.
pub record Replication : Type 0 where
  pub target : Text
  pub token : Text

-- RegistryRepository
pub record Repository : Type 0 where
  pub name : Text
  pub rest : Text
  pub auth : Option Auth
  pub upstreams : List Upstream
  pub replication : Option Replication
  pub signing_key : Text

pub record AuthMeta : Type 0 where
  pub kind : Text
  pub username : Text
  pub header : Text

pub record UpstreamSecret : Type 0 where
  pub password : Text
  pub token : Text
  pub value : Text
  pub ssh_key : Text

pub record Secrets : Type 0 where
  pub signing_key : Text
  pub replication_token : Text
  pub password : Text
  pub token : Text
  pub value : Text
  pub upstreams : List UpstreamSecret

abbrev pub no_secrets : Secrets
no_secrets = record {
  signing_key = [];
  replication_token = [];
  password = [];
  token = [];
  value = [];
  upstreams = [];
}

-- A row of the table: `sealed` is empty where the column is NULL.
pub record Row : Type 0 where
  pub namespace : Text
  pub name : Text
  pub auth_meta : Option AuthMeta
  pub sealed : Text
  pub data_column : Repository

abbrev pub no_credential : Auth → Bool
no_credential a = is_empty a.password && is_empty a.token && is_empty a.value

abbrev pub strip_auth : Option Auth → Option Auth
strip_auth none = none
strip_auth (some a) = some (record a { password = []; token = []; value = [] })

abbrev pub strip_upstream : Upstream → Upstream
strip_upstream u = record u { auth = strip_auth u.auth; ssh_key = [] }

abbrev pub strip_replication : Option Replication → Option Replication
strip_replication none = none
strip_replication (some r) = some (record r { token = [] })

-- The body that repoRecord marshals into the data column.
unfoldable pub strip : Repository → Repository
strip repo = record repo {
  auth = none;
  upstreams = map strip_upstream repo.upstreams;
  replication = strip_replication repo.replication;
  signing_key = [];
}

abbrev pub upstream_secret : Upstream → UpstreamSecret
upstream_secret u = with_auth u.auth u.ssh_key
  where
    with_auth : Option Auth → Text → UpstreamSecret
    with_auth none ssh_key = record { password = []; token = []; value = []; ssh_key = ssh_key }
    with_auth (some a) ssh_key = record {
      password = a.password;
      token = a.token;
      value = a.value;
      ssh_key = ssh_key;
    }

abbrev pub replication_token_of : Option Replication → Text
replication_token_of none = []
replication_token_of (some r) = r.token

abbrev pub auth_field : (Auth → Text) → Option Auth → Text
auth_field f none = []
auth_field f (some a) = f a

-- The value that sealRepoSecrets collects in `sec`.
unfoldable pub secrets_of : Repository → Secrets
secrets_of repo = record {
  signing_key = repo.signing_key;
  replication_token = replication_token_of repo.replication;
  password = auth_field (λ a. a.password) repo.auth;
  token = auth_field (λ a. a.token) repo.auth;
  value = auth_field (λ a. a.value) repo.auth;
  upstreams = map upstream_secret repo.upstreams;
}

abbrev pub has_upstream_secret : UpstreamSecret → Bool
has_upstream_secret us =
    not (is_empty us.password)
    || not (is_empty us.token)
    || not (is_empty us.value)
    || not (is_empty us.ssh_key)

-- The flag `hasSecret`.
unfoldable pub has_secret : Secrets → Bool
has_secret sec =
    not (is_empty sec.signing_key)
    || not (is_empty sec.replication_token)
    || not (is_empty sec.password)
    || not (is_empty sec.token)
    || not (is_empty sec.value)
    || any has_upstream_secret sec.upstreams

abbrev pub meta_of : Option Auth → Option AuthMeta
meta_of none = none
meta_of (some a) = some (record { kind = a.kind; username = a.username; header = a.header })

-- The manager may hold no key, or be nil.
unfoldable pub unlocked : Option Manager → Bool
unfolding is_unlocked
unlocked none = false
unlocked (some m) = is_unlocked m

abbrev pub restore_auth : Option AuthMeta → Secrets → Option Auth
restore_auth none sec = none
restore_auth (some m) sec = some (record {
  kind = m.kind;
  username = m.username;
  password = sec.password;
  token = sec.token;
  header = m.header;
  value = sec.value;
})

abbrev pub restore_upstream_auth : UpstreamSecret → Option Auth → Option Auth
restore_upstream_auth us (some a) =
    some (record a { password = us.password; token = us.token; value = us.value })
restore_upstream_auth us none =
    if is_empty us.password && is_empty us.token && is_empty us.value
    then none
    else some (record {
      kind = [];
      username = [];
      password = us.password;
      token = us.token;
      header = [];
      value = us.value;
    })

-- The loop over the upstreams, which ends with the shorter list.
unfoldable pub restore_upstreams : List UpstreamSecret → List Upstream → List Upstream
restore_upstreams secs [] = []
restore_upstreams [] (u ∷ us) = u ∷ us
restore_upstreams (s ∷ secs) (u ∷ us) =
    record u { auth = restore_upstream_auth s u.auth; ssh_key = s.ssh_key }
    ∷ restore_upstreams secs us

abbrev pub restore_replication : Text → Option Replication → Option Replication
restore_replication token none = none
restore_replication token (some r) = some (record r { token = token })

abbrev pub or_none : {A : Type 0} → Option A → Option A → Option A
or_none none other = other
or_none (some a) other = some a

-- The second half of openRepoSecrets, where `sec` is known.
unfoldable pub restore : Option AuthMeta → Secrets → Repository → Repository
unfolding restore_upstreams
restore meta sec repo = record repo {
  auth = or_none (restore_auth meta sec) repo.auth;
  upstreams = restore_upstreams sec.upstreams repo.upstreams;
  replication = restore_replication sec.replication_token repo.replication;
  signing_key = sec.signing_key;
}
