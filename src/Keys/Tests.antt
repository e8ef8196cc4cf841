-- ===== src/Keys/Tests.antt =====
-- A server with one repository, run through the operations on its key, and the theorems of this tree
-- at that server.
use kutu.Prelude.{
  Option, map, ◌≡◌, ◌≢◌, ◌⊎◌, refl, sym, ap, ℕ, arith, subst, ◌∙◌, Text, codes, List, [], ◌∷◌, ◌++◌,
  none, some, true, false, not, ◌||◌, inl, inr, In, has, has_prefix, ◌==◌,
}
use kutu.Keys.{err, Result, ok, forbidden, Manager, new_manager, encrypt, decrypt}
use kutu.Keys.Store.{repo_record, scan_repo}
use kutu.Keys.Repository.{Auth, Repository, Row, no_secrets, meta_of, strip, restore}
use kutu.Keys.Service.{
  Outcome, Server, Environment, verifier_magic, initialize_server_key, unlock_server_key,
  rotate_server_key, restart,
}
use kutu.Keys.Verifier.{
  Operation, restarted, locking, unlocking, status, live_key, Opens, IsConsistent,
}
use kutu.Keys.Consistent.{run, run-IsConsistent}
use kutu.Keys.RoundTrip.{scan_repo-repo_record}
use kutu.Keys.Unlocking.{initialize-unlocks, unlock_server_key-forbidden}
use kutu.Keys.Rewrap.{address}
use kutu.Keys.Rotation.{IsStored}
use kutu.Keys.Credentials.{HasNoCredential, rotate_server_key-rows, rotate_server_key-loses}
use kutu.Keys.Gate.{passes, gated_prefix, me_prefix, allow_exact, restart-unlock_passes}
use kutu.Keys.Toy.{toy, total, toy_laws, marshal, unmarshal, unmarshal-marshal}

abbrev nonce : Text
nonce = codes "twenty-four-byte-nonce!!"

abbrev calm : Environment
calm = record {
  read_fails = false;
  write_fails = false;
  load_fails = false;
  random = some (codes "sixteen-byte-rnd");
  nonce = some nonce;
  repo_nonce = λ ns name. some nonce;
  repo_written = λ ns name. true;
}

abbrev first : Text
first = codes "first"

abbrev second : Text
second = codes "second!"

abbrev fresh_server : Server
fresh_server = record {
  key_manager = some new_manager;
  verifier = [];
  namespaces = codes "team" ∷ [];
  rows = [];
}

-- A repository with a signing key and no upstream.
abbrev apt : Repository
apt = record {
  name = codes "apt";
  rest = [];
  auth = none;
  upstreams = [];
  replication = none;
  signing_key = codes "PRIVATE KEY";
}

abbrev first_key : Text
first_key = toy.sha256 first

abbrev unlocked_manager : Manager
unlocked_manager = record { active = some first_key; initialized = true }

abbrev sealed_with : Text → Text
sealed_with key = nonce ++ toy.aead_seal key nonce (verifier_magic ++ codes "sixteen-byte-rnd")

abbrev apt_row : Row
apt_row = record {
  namespace = codes "team";
  name = codes "apt";
  auth_meta = none;
  sealed =
      1
      ∷ (nonce
          ++ toy.aead_seal first_key nonce
              (marshal (record no_secrets { signing_key = codes "PRIVATE KEY" })));
  data_column = record apt { signing_key = [] };
}

abbrev server : Server
server = record {
  key_manager = some unlocked_manager;
  verifier = sealed_with first_key;
  namespaces = codes "team" ∷ [];
  rows = apt_row ∷ [];
}

written :
    repo_record toy marshal (some unlocked_manager) (some nonce) (codes "team") apt ≡ ok apt_row
unfolding repo_record
written = refl

scan_repo-repo_record_example : scan_repo toy unmarshal (some unlocked_manager) apt_row ≡ apt
scan_repo-repo_record_example =
    scan_repo-repo_record toy toy_laws marshal unmarshal unmarshal-marshal unlocked_manager
      first_key (codes "team") (some nonce) apt apt_row refl refl written

head_of : Text → ℕ
head_of [] = 0
head_of (c ∷ s) = c

other_key : toy.sha256 second ≢ first_key
unfolding head_of
other_key e = let n : total second ≡ total first = ap head_of e in omega arith

opens_first : Opens toy first_key server.verifier
unfolding decrypt has_prefix ◌==◌
opens_first = (verifier_magic ++ codes "sixteen-byte-rnd", refl, refl)

server-IsConsistent : IsConsistent toy server
server-IsConsistent k live =
    let same : first_key ≡ k = cc live in subst (λ z. Opens toy z server.verifier) same opens_first

-- A wrong passphrase, a restart, the right one.
abbrev operations : List Operation
operations =
    locking ∷ unlocking calm second ∷ restarted calm ∷ unlocking calm first ∷ status calm ∷ []

run-IsConsistent_example : IsConsistent toy (run toy marshal unmarshal operations server)
run-IsConsistent_example =
    run-IsConsistent toy toy_laws marshal unmarshal operations server
      (tt, (tt, (tt, (tt, (tt, tt))))) server-IsConsistent

initialized : (initialize_server_key toy calm first fresh_server).1 ≡ none
unfolding initialize_server_key
initialized = refl

abbrev initialized_server : Server
initialized_server =
    run toy marshal unmarshal operations (initialize_server_key toy calm first fresh_server).0

initialize-unlocks_example :
    ((unlock_server_key toy calm first initialized_server).1 ≡ none)
    × (live_key (unlock_server_key toy calm first initialized_server).0 ≡ some first_key)
initialize-unlocks_example =
    initialize-unlocks toy marshal unmarshal toy_laws calm calm first fresh_server operations refl
      initialized (tt, (tt, (tt, (tt, (tt, tt))))) refl

unlock_server_key-forbidden_example :
    unlock_server_key toy calm second server ≡ (server, some forbidden)
unlock_server_key-forbidden_example =
    unlock_server_key-forbidden toy toy_laws calm second server unlocked_manager first_key
      (verifier_magic ++ codes "sixteen-byte-rnd") (some nonce) refl (λ e. cc e) refl refl
      (unfold encrypt in refl) other_key

server-IsStored : IsStored server
server-IsStored = record {
  within = λ r i. elim i [ inl q ↦ inl (λ j. (q j).namespace) | inr z ↦ absurd z ];
  named =
      λ r i. elim i [ inl q ↦ subst (λ z. z.data_column.name ≡ z.name) q refl | inr z ↦ absurd z ];
  unique = λ a b i j e f. elim i [
    | inl q ↦ elim j [ inl q' ↦ sym q ∙ q' | inr z ↦ absurd z ]
    | inr z ↦ absurd z
  ];
}

rotated : (rotate_server_key toy marshal unmarshal calm first second server).1 ≡ none
unfolding rotate_server_key
rotated = refl

abbrev rotated_server : Server
rotated_server = (rotate_server_key toy marshal unmarshal calm first second server).0

rotate_server_key-rows_example :
    (live_key rotated_server ≡ some (toy.sha256 second))
    × Opens toy (toy.sha256 second) rotated_server.verifier
    × (map address rotated_server.rows ≡ map address server.rows)
    × ((r : Row)
        → In r rotated_server.rows
        → (old : Row) × In old server.rows
          × (address r ≡ address old)
          × ((scan_repo toy unmarshal rotated_server.key_manager r
                ≡ scan_repo toy unmarshal server.key_manager old)
              ⊎ ((r ≡ old)
                  × HasNoCredential (scan_repo toy unmarshal server.key_manager old).auth)))
rotate_server_key-rows_example =
    rotate_server_key-rows toy toy_laws marshal unmarshal unmarshal-marshal calm first second server
      unlocked_manager refl refl server-IsStored refl (λ ns name. refl) rotated

rotate_server_key-loses_example :
    In apt_row rotated_server.rows
    × (scan_repo toy unmarshal server.key_manager apt_row ≡ apt)
    × (scan_repo toy unmarshal rotated_server.key_manager apt_row
        ≡ restore (meta_of apt.auth) no_secrets (strip apt))
rotate_server_key-loses_example =
    rotate_server_key-loses toy toy_laws marshal unmarshal unmarshal-marshal calm first second
      server unlocked_manager first_key (codes "team") (some nonce) apt apt_row refl refl other_key
      server-IsStored refl refl written (inl refl) refl rotated

abbrev locked_server : Server
locked_server = (restart calm server).0

-- A repository with a password for its upstream.
abbrev npm : Repository
npm = record apt {
  name = codes "npm";
  auth = some (record {
    kind = codes "basic";
    username = codes "ci";
    password = codes "secret";
    token = [];
    header = [];
    value = [];
  });
  signing_key = [];
}

abbrev row_of : Result Row → List Row
row_of (ok r) = r ∷ []
row_of (err e) = []

abbrev npm_rows : List Row
npm_rows = row_of (repo_record toy marshal (some unlocked_manager) (some nonce) (codes "team") npm)

abbrev locked_npm : Server
locked_npm = (restart calm (record server { rows = npm_rows })).0

abbrev after_locked : Outcome
after_locked = rotate_server_key toy marshal unmarshal calm first second locked_npm

abbrev passwords : Server → List (Option Auth)
passwords s = map (λ r. (scan_repo toy unmarshal s.key_manager r).auth) s.rows

-- A rotation while the server is locked succeeds and writes no row: the new key reads no password.
rotated_locked :
    (after_locked.1 ≡ none)
    × (after_locked.0.rows ≡ npm_rows)
    × (live_key after_locked.0 ≡ some (toy.sha256 second))
    × (map (λ r. (scan_repo toy unmarshal (some unlocked_manager) r).auth) npm_rows ≡ npm.auth ∷ [])
    × (passwords after_locked.0
        ≡ some (record {
          kind = codes "basic";
          username = codes "ci";
          password = [];
          token = [];
          header = [];
          value = [];
        })
          ∷ [])
unfolding rotate_server_key restart repo_record scan_repo
rotated_locked = (refl, refl, refl, refl, refl)

restart-unlock_passes_example :
    ((path : Text)
      → passes locked_server.key_manager path
        ≡ (not (has_prefix path gated_prefix) || has allow_exact path || has_prefix path me_prefix))
    × (passes locked_server.key_manager (codes "/api/v1/key/unlock") ≡ true)
    × ((unlock_server_key toy calm first locked_server).1 ≡ none)
    × ((path : Text)
        → passes (unlock_server_key toy calm first locked_server).0.key_manager path ≡ true)
restart-unlock_passes_example =
    restart-unlock_passes toy toy_laws calm calm first server refl refl (λ e. cc e) opens_first
