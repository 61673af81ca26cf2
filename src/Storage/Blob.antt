-- ===== src/Storage/Blob.antt =====
-- The store of blobs (src/interview_analytics_agent/storage/blob.py).
pub mod Laws
pub mod Whole
use Prim.Native.Char.{Char, code}
use second_capture.Base.{
  ℕ, ◌-◌, ◌==◌, ltb, String, ◌<>◌, str_eq, Bool, true, false, not, ◌&&◌, ◌||◌, Option, none, some,
  List, [], ◌∷◌, ◌++◌, if◌then◌else◌,
}
use second_capture.Base.Text.{is_empty, strip, norm, text_or, split, contains, truncate}
use second_capture.Base.Errors.{
  storage_error, Exc, provider, other, exc_text, Outcome, ok, err, Op, pure, raise, catch, ◌>>=◌,
  ◌>>◌,
}
use second_capture.Config.{ℤ, at_least}
use second_capture.Auth.Security.{is_prod_env}

-- The settings that the store reads, a directory that is not set being the empty text, and the
-- variable CHUNKS_DIR of the environment.
pub record StoreSettings : Type 0 where
  pub app_env : String
  pub storage_require_shared_in_prod : Bool
  pub storage_mode : String
  pub storage_shared_fs_dir : String
  pub chunks_dir : String
  pub environ_chunks_dir : Option String

-- An absolute path by its parts, the last of them first.
abbrev pub PathParts : Type 0
PathParts = List String

-- The file system over its own state, and what `resolve` makes of the text of a directory. What
-- `Path` does with a NUL in a name is left to it. `unlink` gives false for FileNotFoundError.
pub record FileSystem : Type 1 where
  pub Files : Type 0
  pub resolve : String → PathParts
  pub mkdir : PathParts → Op Files (Unit {0})
  pub write_bytes : PathParts → List ℕ → Op Files (Unit {0})
  pub read_bytes : PathParts → Files → Outcome (List ℕ)
  pub replace : PathParts → PathParts → Op Files (Unit {0})
  pub unlink : PathParts → Op Files Bool
  pub exists : PathParts → Files → Bool

abbrev or_else : String → String → String
or_else s default = if is_empty s then default else s

unfoldable pub storage_mode : StoreSettings → Outcome String
storage_mode s =
    let mode = norm (or_else s.storage_mode "local_fs") in
    if not (contains mode ("local_fs" ∷ "shared_fs" ∷ []))
    then err (provider storage_error ("Неизвестный STORAGE_MODE: " <> mode))
    else if is_prod_env s.app_env
        && s.storage_require_shared_in_prod
        && not (str_eq mode "shared_fs")
    then err (provider storage_error "В APP_ENV=prod требуется STORAGE_MODE=shared_fs")
    else ok mode

-- The text of `_base_dir`, before `resolve`.
unfoldable pub base_dir : StoreSettings → Outcome String
base_dir s = elim (storage_mode s) [
  | err x ↦ err x
  | ok mode ↦
      let root =
        if str_eq mode "shared_fs"
        then or_else s.storage_shared_fs_dir s.chunks_dir
        else or_else s.chunks_dir
            (elim s.environ_chunks_dir [ none ↦ "./data/chunks" | some dir ↦ dir ]) in
      ok (or_else (strip root) "./data/chunks")
]

abbrev is_slash : Char → Bool
is_slash c = code c == b'/'

-- `key.lstrip("/")`.
unfoldable pub without_slashes : String → String
without_slashes String.[] = ""
without_slashes (String.◌∷◌ c s) =
    let rest = without_slashes s in if is_slash c then rest else String.◌∷◌ c s

-- `base / key` for a relative key: `pathlib` drops empty parts and dots.
unfoldable pub under : PathParts → List String → PathParts
under base [] = base
under base (part ∷ rest) =
    under (if is_empty part || str_eq part "." then base else part ∷ base) rest

-- `key.split("/")`.
abbrev pub key_parts : String → List String
key_parts key = split is_slash (without_slashes key)

abbrev pub parent : PathParts → PathParts
parent [] = []
parent (_ ∷ p) = p

abbrev pub name : PathParts → String
name [] = ""
name (n ∷ _) = n

-- `p.parent / f".tmp-{p.name}-{uuid4().hex}"`.
unfoldable pub tmp_path : String → PathParts → PathParts
tmp_path hex p = (".tmp-" <> (name p <> ("-" <> hex))) ∷ parent p

module _ (fs : FileSystem) where
  unfoldable pub put_at : String → PathParts → List ℕ → Op fs.Files (Unit {0})
  put_at hex p data_ = do
    fs.mkdir (parent p)
    fs.write_bytes (tmp_path hex p) data_
    fs.replace (tmp_path hex p) p

module _ (fs : FileSystem) (s : StoreSettings) where
  -- The check of the key comes first.
  unfoldable pub key_to_path : String → Outcome PathParts
  key_to_path key =
      if contains ".." (key_parts key) then err (other "invalid key") else elim (base_dir s) [
        | err x ↦ err x
        | ok dir ↦ ok (under (fs.resolve dir) (key_parts key))
      ]

  unfoldable pub put_bytes : String → String → List ℕ → Op fs.Files String
  put_bytes hex key data_ files = elim (key_to_path key) [
    | err x ↦ (err x, files)
    | ok p ↦ (put_at fs hex p data_ >>= λ _. pure key) files
  ]

  unfoldable pub get_bytes : String → fs.Files → Outcome (List ℕ)
  get_bytes key files = elim (key_to_path key) [ err x ↦ err x | ok p ↦ fs.read_bytes p files ]

  unfoldable pub exists : String → fs.Files → Outcome Bool
  exists key files = elim (key_to_path key) [ err x ↦ err x | ok p ↦ ok (fs.exists p files) ]

  unfoldable pub delete : String → Op fs.Files (Unit {0})
  delete key files = elim (key_to_path key) [
    | err x ↦ (err x, files)
    | ok p ↦ (fs.unlink p >>= λ _. pure tt) files
  ]

-- `str(base)`, or the setting as it stands.
pub data Directory : Type 0 where
  resolved : PathParts → Directory
  configured : String → Directory

pub record StorageHealth : Type 0 where
  pub mode : String
  pub base_dir : Directory
  pub healthy : Bool
  pub error : Option String

-- `_HEALTH_CACHE`.
pub record HealthCache : Type 0 where
  pub ts : ℕ
  pub value : Option StorageHealth

abbrev bytes_eq : List ℕ → List ℕ → Bool
bytes_eq [] [] = true
bytes_eq (x ∷ xs) (y ∷ ys) = x == y && bytes_eq xs ys
bytes_eq [] (y ∷ ys) = false
bytes_eq (x ∷ xs) [] = false

module _ (fs : FileSystem) (s : StoreSettings) where
  abbrev lift : {A : Type 0} → Outcome A → Op fs.Files A
  lift r files = (r, files)

  -- `b"ok"`.
  abbrev probe : List ℕ
  probe = 111 ∷ 107 ∷ []

  -- What the health check tries, with two fresh tokens: one for the key, one for its write.
  unfoldable pub probed : String → String → Op fs.Files StorageHealth
  probed token hex =
      let probe_key = "health/probe-" <> (token <> ".bin") in
      do
        mode ← lift (storage_mode s)
        dir ← lift (base_dir s)
        fs.mkdir (fs.resolve dir)
        saved ← put_bytes fs s hex probe_key probe
        got ← λ files. (get_bytes fs s probe_key files, files)
        delete fs s probe_key
        pure (record {
          mode = mode;
          base_dir = resolved (fs.resolve dir);
          healthy = bytes_eq got probe;
          error = if bytes_eq got probe then none else some "storage read/write mismatch";
        })

  unfoldable pub check_storage_health : String → String → Op fs.Files StorageHealth
  check_storage_health token hex = catch (probed token hex) (λ x. pure (record {
    mode = or_else s.storage_mode "unknown";
    base_dir = configured (or_else s.storage_shared_fs_dir (or_else s.chunks_dir "unknown"));
    healthy = false;
    error = some (truncate 300 (exc_text x));
  }))

  unfoldable pub check_storage_health_cached :
      ℕ → ℤ → String → String → Op (HealthCache × fs.Files) StorageHealth
  check_storage_health_cached now max_age_sec token hex (cache, files) =
      let checked =
        let (r, files') = check_storage_health token hex files in
        elim r as (λ _. Outcome StorageHealth × (HealthCache × fs.Files)) [
          | err x ↦ (err x, (cache, files'))
          | ok current ↦ (ok current, (record { ts = now; value = some current }, files'))
        ] in
      elim cache.value [
        | none ↦ checked
        | some cached ↦
            if ltb (now - cache.ts) (at_least 1 max_age_sec)
            then (ok cached, (cache, files))
            else checked
      ]
