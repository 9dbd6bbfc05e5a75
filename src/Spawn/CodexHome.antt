-- ===== src/Spawn/CodexHome.antt =====
-- lib/spawn-env.js, resolveSpawnEnv: the files of a Codex home. Which calls of the file system fail
-- is a parameter; a call that fails leaves the files as they were.
use cli_provider_router.Prelude.{
  ℕ, ◌-◌, Bool, true, false, not, ◌&&◌, ◌||◌, Option, none, some, leb, ◌==◌, ◌+◌, if◌then◌else◌, [],
  ◌∷◌, ◌++◌, length, Text, codes, is_empty, is_space, Result, ok, err,
}
use cli_provider_router.Json.{Json, str, Fields, lookup, to_text, or_blank}
use cli_provider_router.Hop.Routes.{is_given}
use cli_provider_router.Ledger.Event.{json_or_null}
use cli_provider_router.Providers.Config.{skip_spaces, after_prefix, toml_value}

-- What the step that failed was for.
pub data Stage : Type 0 where
  codex_home_stage codex_auth codex_config : Stage

-- What auth.json holds: the settings' own document, or a copy of the user's file.
pub data Auth : Type 0 where
  own : Json → Auth
  of_user : Auth

-- A Codex home: its auth.json and config.toml.
pub record Home : Type 0 where
  pub auth : Option Auth
  pub config : Option Text

pub data HomeStep : Type 0 where
  make_home write_auth copy_auth remove_auth write_config : HomeStep

abbrev pub is_line_end : ℕ → Bool
is_line_end c = c == 10 || c == 13 || c == 8232 || c == 8233

-- The text from the end of the line on.
abbrev pub rest_of_line : Text → Text
rest_of_line [] = []
rest_of_line (c ∷ s) = let rest = rest_of_line s in if is_line_end c then c ∷ s else rest

-- How long the match of `model_catalog_json\s*=.*` at the start of a text is; 0 for none.
unfoldable pub catalog_length : Text → ℕ
catalog_length s = elim (after_prefix (codes "model_catalog_json") s) [
  | none ↦ 0
  | some rest ↦ elim (after_prefix (codes "=") (skip_spaces rest)) [
    | none ↦ 0
    | some value ↦ length s - length (rest_of_line value)
  ]
]

-- `replace(/^model_catalog_json\s*=.*$/gm, '')`; `skip` is how much of a match is still to come, and
-- `start` whether a line begins.
unfoldable pub drop_catalog : ℕ → Bool → Text → Text
drop_catalog skip start [] = []
drop_catalog skip start (c ∷ s) =
    let left = if skip == 0 then (if start then catalog_length (c ∷ s) else 0) else skip in
    let rest = drop_catalog (left - 1) (is_line_end c && left == 0) s in
    if left == 0 then c ∷ rest else rest

-- `replace(/\n{3,}/g, '\n\n')`, behind so many line breaks.
unfoldable pub collapse_lines : ℕ → Text → Text
collapse_lines n [] = []
collapse_lines n (c ∷ s) =
    let rest = collapse_lines (if c == 10 then n + 1 else 0) s in
    if c == 10 && leb 2 n then rest else c ∷ rest

-- Whether the white space at the start of a text is there and ends with a line break.
abbrev pub ends_line : Bool → Text → Bool
ends_line last [] = last
ends_line last (c ∷ s) = let rest = ends_line (c == 10) s in if is_space c then rest else last

abbrev pub custom_table : Text
custom_table = codes "[model_providers.custom]"

-- The text behind `[model_providers]\s*\n[model_providers.custom]`.
unfoldable pub after_tables : Text → Option Text
after_tables s = elim (after_prefix (codes "[model_providers]") s) [
  | none ↦ none
  | some rest ↦ if ends_line false rest then after_prefix custom_table (skip_spaces rest) else none
]

-- The empty table in front of the provider's own is taken out, once.
unfoldable pub fold_tables : Text → Text
fold_tables [] = []
fold_tables (c ∷ s) =
    let rest = fold_tables s in
    elim (after_tables (c ∷ s)) [ none ↦ c ∷ rest | some more ↦ custom_table ++ more ]

unfoldable pub clean_toml : Text → Text
clean_toml toml = fold_tables (collapse_lines 0 (drop_catalog 0 true toml))

abbrev pub has_auth : Option Auth → Bool
has_auth none = false
has_auth (some a) = true

module _ (works : HomeStep → Bool) (global : Bool) where
  -- The stage of auth.json; `global` tells whether the user's own auth.json is there.
  unfoldable pub write_auth_file : Fields → Home → Home × Bool
  write_auth_file cfg h =
      if is_given (lookup (codes "auth") cfg)
      then (if works write_auth
          then (record h { auth = some (own (json_or_null (lookup (codes "auth") cfg))) }, true)
          else (h, false))
      else if not (
          is_empty
            (toml_value (to_text (or_blank (lookup (codes "config") cfg))) (codes "base_url")))
      then (h, true)
      else if global
      then (if works copy_auth then (record h { auth = some of_user }, true) else (h, false))
      else if has_auth h.auth
      then (if works remove_auth then (record h { auth = none }, true) else (h, false))
      else (h, true)

  -- The stage of config.toml; a configuration that is no text has no `replace`.
  unfoldable pub write_config_file : Option Json → Home → Home × Bool
  write_config_file (some (str toml)) h =
      if is_empty toml
      then (h, true)
      else if works write_config
      then (record h { config = some (clean_toml toml) }, true)
      else (h, false)
  write_config_file v h = (h, not (is_given v))

  unfoldable pub materialize : Fields → Home → Home × Result Stage (Unit {0})
  materialize cfg h =
      if not (works make_home)
      then (h, err codex_home_stage)
      else let (h1, authed) = write_auth_file cfg h in
        if not authed
        then (h1, err codex_auth)
        else let (h2, configured) = write_config_file (lookup (codes "config") cfg) h1 in
          if configured then (h2, ok tt) else (h2, err codex_config)
