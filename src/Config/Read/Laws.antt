-- ===== src/Config/Read/Laws.antt =====
-- What a read of the files leaves: usable settings, or the configuration as it was.
use freno.Prelude.{
  ℕ, ◌≡◌, ◌≢◌, ◌⊎◌, inl, inr, refl, sym, ap, ◌∙◌, Option, none, some, List, [], arith,
}
use freno.Go.Text.{Text, str_eq_iff, text_eq}
use freno.Config.Read.{
  ConfigurationSettings, new_configuration_settings, Configuration, config_files, File, Answer,
  completed, failed, pending, ReadError, Loaded, loaded, broken, StoresSettings, resolve,
  backend_error, adjust_stores, adjust_settings, load, finish, store_settings, read_loaded, read,
  reload, load_configuration, Flags, override,
}
use freno.Config.Adjust.{Adjusted, adjusted, refused, unfinished}

-- A backend is named, and the MySQL one with its schema.
abbrev pub IsUsable : ConfigurationSettings → Type 0
IsUsable s =
    ((s.raft_data_dir ≢ []) ⊎ (s.backend_mysql_host ≢ []))
    × ((s.backend_mysql_host ≡ []) ⊎ (s.backend_mysql_schema ≢ []))

backend_error-IsUsable : (s : ConfigurationSettings) → backend_error s ≡ none → IsUsable s
unfolding backend_error
backend_error-IsUsable s h = ground (
  arith,
  str_eq_iff s.raft_data_dir [],
  str_eq_iff s.backend_mysql_host [],
  str_eq_iff s.backend_mysql_schema [],
)

-- What an answer leaves of the settings.
finish-IsUsable :
    (s : ConfigurationSettings) (e : Option ReadError) (stores : Adjusted StoresSettings)
    → e ≡ backend_error s
    → (finish s e stores).1 ≡ completed
    → IsUsable (finish s e stores).0
unfolding finish
finish-IsUsable s (some e) stores q h = ground (arith, h)
finish-IsUsable s none (adjusted stores) q h = backend_error-IsUsable s (sym q)
finish-IsUsable s none (refused e) q h = ground (arith, h)
finish-IsUsable s none unfinished q h = ground (arith, h)

-- What a read leaves: usable settings and the names of the files, or the configuration as it was.
abbrev pub Outcome : Configuration → List Text → Configuration × Answer → Type 0
Outcome config file_names (config', answer) =
    ((answer ≡ completed) × IsUsable config'.settings × (config'.read_file_names ≡ file_names))
    ⊎ ((answer ≢ completed) × (config' ≡ config))

store_settings-Outcome :
    (config : Configuration) (file_names : List Text) (r : ConfigurationSettings × Answer)
    → (r.1 ≡ completed → IsUsable r.0)
    → Outcome config file_names (store_settings config file_names r)
unfolding store_settings
store_settings-Outcome config file_names (s, completed) h = inl (refl, h refl, refl)
store_settings-Outcome config file_names (s, failed e) h = inr (λ q. ground (arith, q), refl)
store_settings-Outcome config file_names (s, pending) h = inr (λ q. ground (arith, q), refl)

store_settings_fresh :
    (config config' : Configuration) (file_names : List Text) (r : ConfigurationSettings × Answer)
    → (store_settings config file_names r).1 ≡ completed
    → store_settings config' file_names r ≡ store_settings config file_names r
unfolding store_settings
store_settings_fresh config config' file_names (s, completed) h = refl
store_settings_fresh config config' file_names (s, failed e) h = ground (arith, h)
store_settings_fresh config config' file_names (s, pending) h = ground (arith, h)

override-IsUsable :
    (flags : Flags) (s : ConfigurationSettings) → IsUsable s → IsUsable (override flags s)
unfolding override
override-IsUsable flags s u = ground (arith, u, str_eq_iff flags.flag_raft_data_dir [])

module _ {D : Type 0} (files : Text → File D)
    (decode : D → ConfigurationSettings → Option ConfigurationSettings) (getenv : Text → Text)
    (fuel : ℕ) where
  read_loaded-Outcome :
      (config : Configuration) (file_names : List Text) (l : Loaded)
      → Outcome config file_names (read_loaded files decode getenv fuel config file_names l)
  unfolding read_loaded adjust_settings
  read_loaded-Outcome config file_names (broken e) = inr (λ q. ground (arith, q), refl)
  read_loaded-Outcome config file_names (loaded settings) =
      let s = resolve getenv settings in
      store_settings-Outcome config file_names (adjust_settings getenv fuel settings)
        (finish-IsUsable s (backend_error s) (adjust_stores getenv fuel s.stores) refl)

  -- A read of files either succeeds, with settings that name a raft directory or a host of the
  -- backend, and a schema where they name a host, and with the names of the files kept; or it
  -- leaves the configuration as it was.
  pub read-Outcome :
      (config : Configuration) (file_names : List Text)
      → Outcome config file_names (read files decode getenv fuel config file_names)
  unfolding read
  read-Outcome config file_names =
      read_loaded-Outcome config file_names
        (load files decode file_names new_configuration_settings)

  -- A read that succeeds does not depend on the configuration before it.
  read_loaded_fresh :
      (config config' : Configuration) (file_names : List Text) (l : Loaded)
      → (read_loaded files decode getenv fuel config file_names l).1 ≡ completed
      → read_loaded files decode getenv fuel config' file_names l
        ≡ read_loaded files decode getenv fuel config file_names l
  unfolding read_loaded
  read_loaded_fresh config config' file_names (broken e) h = ground (arith, h)
  read_loaded_fresh config config' file_names (loaded settings) h =
      store_settings_fresh config config' file_names (adjust_settings getenv fuel settings) h

  -- After a read that succeeds, a reload from the same files in the same environment leaves the
  -- same configuration, and succeeds: nothing of the configuration before goes into it.
  pub reload-read :
      (config : Configuration) (file_names : List Text)
      → (read files decode getenv fuel config file_names).1 ≡ completed
      → reload files decode getenv fuel (read files decode getenv fuel config file_names).0
        ≡ read files decode getenv fuel config file_names
  unfolding reload read
  reload-read config file_names h =
      let config' = (read files decode getenv fuel config file_names).0 in
      elim (read-Outcome config file_names) [
        | inr (n, e) ↦ absurd (n h)
        | inl (c, u, e) ↦
            ap (λ names. read files decode getenv fuel config' names) e
            ∙ read_loaded_fresh config config' file_names
                (load files decode file_names new_configuration_settings) h
      ]

  -- Settings that are read without an error name a backend, and the MySQL one with its schema, whatever
  -- the flags override.
  pub override-load_configuration :
      (flags : Flags) (config_file : Text) (config : Configuration)
      → (load_configuration files decode getenv fuel config_file config).1 ≡ completed
      → IsUsable (
          override flags
            (load_configuration files decode getenv fuel config_file config).0.settings)
  unfolding load_configuration
  override-load_configuration flags config_file config h =
      let config' = read files decode getenv fuel config (config_files config_file) in
      elim (read-Outcome config (config_files config_file)) [
        | inr (n, e) ↦ absurd (n h)
        | inl (c, u, e) ↦ override-IsUsable flags config'.0.settings u
      ]
