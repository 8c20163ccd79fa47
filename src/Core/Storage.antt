-- ===== src/Core/Storage.antt =====
-- sk-core/src/external_storage.rs: where traces are written to and read from.
use simkube.Common.{
  Option, List, [], ◌∷◌, ◌++◌, String, Outcome, ok, err, panic, message, ok_or, ◌>>=◌,
}

-- A program runs at the tracer, at the client that asks for an export, or at the driver.
pub data Host : Type 0 where
  tracer client driver : Host

pub data ObjectStoreScheme : Type 0 where
  local memory amazon_s3 microsoft_azure google_cloud_storage http other : ObjectStoreScheme

pub data UrlParse (Url : Type 0) : Type 0 where
  parsed : Url → UrlParse Url
  relative_url_without_base : UrlParse Url
  malformed : UrlParse Url

-- URLs and paths, and the makers of clients, which read the host's environment.
pub record Backend : Type 1 where
  pub Url : Type 0
  pub StorePath : Type 0
  pub parse : String → UrlParse Url
  pub absolute : Host → String → Outcome String
  pub from_file_path : String → Option Url
  pub parse_scheme : Url → Outcome (ObjectStoreScheme × StorePath)
  pub build : Host → ObjectStoreScheme → String → Outcome (Unit {0})

module _ ⦃b : Backend⦄ where
  -- The client of a store is what its scheme and its path make it.
  pub record SkObjectStore : Type 0 where
    pub scheme : ObjectStoreScheme
    pub path : b.StorePath

  unfoldable pub parse_path : Host → String → Outcome (ObjectStoreScheme × b.StorePath)
  parse_path host path_str =
      elim (b.parse path_str) as (λ _. Outcome b.Url) [
        | relative_url_without_base ↦ b.absolute host path_str >>= λ path.
            ok_or (b.from_file_path path) (message "could not create URL from file path")
        | parsed url ↦ ok url
        | malformed ↦ err (message "malformed URL")
      ]
      >>= b.parse_scheme

  -- Stores on the host itself are made without fail.
  abbrev pub make : Host → ObjectStoreScheme → String → Outcome (Unit {0})
  make host local path_str = ok tt
  make host memory path_str = ok tt
  make host other path_str = panic
  make host scheme path_str = b.build host scheme path_str

  unfoldable pub new : Host → String → Outcome SkObjectStore
  new host path_str = do
    (scheme, path) ← parse_path host path_str
    store ← make host scheme path_str
    ok (record { scheme = scheme; path = path })

  -- What was written, by which host, to which store. `answers` says whether a write succeeds.
  abbrev pub Writes : Type 0 → Type 0
  Writes Bytes = List (Host × SkObjectStore × Bytes)

  unfoldable pub put :
      {Bytes : Type 0}
      → (Host → SkObjectStore → Outcome (Unit {0}))
      → Host
      → SkObjectStore
      → Bytes
      → Writes Bytes
      → Outcome (Unit {0}) × Writes Bytes
  put answers host store data_ ws = elim (answers host store) [
    | ok u ↦ (ok tt, ws ++ (host, store, data_) ∷ [])
    | err e ↦ (err e, ws)
    | panic ↦ (panic, ws)
  ]
