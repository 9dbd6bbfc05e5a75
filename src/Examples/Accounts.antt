-- ===== src/Examples/Accounts.antt =====
-- lib/store.js, lib/route-profile-store.js and lib/spawn-env.js at small stores.
use cli_provider_router.Prelude.{
  ◌+◌, ◌≡◌, refl, ap, subst, Bool, true, false, Option, none, some, List, [], ◌∷◌, length, Text,
  codes, text_eq, mem_text, lower, trim, is_space, starts_with, if◌then◌else◌, Result, ok, err,
  arith,
}
use cli_provider_router.Json.{Json, str, arr, obj, Fields, end, field, lookup, to_text, nil, cons}
use cli_provider_router.Atomic.{Disk, absent, document, primary, from_fallback}
use cli_provider_router.Atomic.Rotation.{all_work}
use cli_provider_router.Durable.{Current, default_document, load, mutate, settle, commit}
use cli_provider_router.Profiles.Profile.{
  ProfileError, normalize_profile, clean_endpoint, endpoint_of, clean_roles, profile_of,
}
use cli_provider_router.Profiles.Store.{
  profiles_schema, spread_in, rows_in, uses_provider, leads_to, endpoints_of, list, get, create,
  references_provider,
}
use cli_provider_router.Profiles.Saved.{IsNew, get-create}
use cli_provider_router.Providers.Config.{parse_config, toml_value, value_here, value_later}
use cli_provider_router.Providers.Build.{Url}
use cli_provider_router.Providers.Deletes.{IsGuarded, delete-IsGuarded}
use cli_provider_router.Providers.Imports.{Imported, import_list}
use cli_provider_router.Providers.Reimport.{import_again}
use cli_provider_router.Spawn.CodexHome.{
  HomeStep, Home, materialize, write_auth_file, write_config_file,
}
use cli_provider_router.Spawn.Resolve.{
  Resolution, app_type_for_cli, empty_resolution, resolve_spawn_env, resolve_found, resolve_codex,
  of_home,
}
use cli_provider_router.Spawn.Child.{build_child_env}
use cli_provider_router.Spawn.Closed.{IsCodexEnv, codex_fails_closed}

abbrev no_file : Disk
no_file f = absent

abbrev accept : Fields → Result ProfileError Fields
accept p = ok p

abbrev main_p1 : Fields
main_p1 = field (codes "name") (str (codes "work")) (
    field (codes "cli") (str (codes "claude"))
      (field (codes "main") (obj (field (codes "providerId") (str (codes "p1")) end)) end))

abbrev work_profile : Fields
work_profile = elim (normalize_profile 5 (codes "r1") (obj main_p1) end) [ ok p ↦ p | err e ↦ end ]

created_work : (create all_work accept 5 (codes "r1") (obj main_p1) no_file).1 ≡ ok work_profile
unfolding create mutate settle commit normalize_profile clean_endpoint endpoint_of clean_roles
    profile_of lookup load spread_in to_text mem_text lower
created_work = refl

abbrev at_start : Current
at_start = record {
  document = default_document profiles_schema;
  is_present = false;
  recovered = false;
  source = from_fallback;
}

loads_start : (load all_work profiles_schema no_file).1 ≡ ok at_start
unfolding load
loads_start = refl

empty-IsNew :
    (c : Current) (vs : List Json)
    → (load all_work profiles_schema no_file).1 ≡ ok c
    → spread_in c.payload ≡ ok vs
    → IsNew (codes "r1") vs
unfolding spread_in
empty-IsNew c vs l e =
    let same : at_start ≡ c = ground (arith, l, loads_start) in
    let none_there : [] ≡ vs = ground (arith, e, ap (λ x. spread_in x.payload) same) in
    subst (IsNew (codes "r1")) none_there tt

get-create_example :
    let d' = (create all_work accept 5 (codes "r1") (obj main_p1) no_file).0 in
    get all_work accept (codes "r1") d' ≡ (d', ok (some work_profile))
unfolding lookup to_text clean_endpoint endpoint_of normalize_profile clean_roles profile_of
    mem_text text_eq lower trim
get-create_example =
    get-create all_work accept 5 (codes "r1") (codes "r1") (obj main_p1) no_file work_profile
      created_work refl empty-IsNew

abbrev home_at : Text → Text
home_at id = codes "/homes/"

abbrev empty_home : Home
empty_home = record { auth = none; config = none }

abbrev step_works : HomeStep → Bool
step_works s = true

abbrev no_json : Text → Option Json
no_json t = none

-- One Claude and one Codex provider, of the same identifier.
abbrev claude_p1 : Fields
claude_p1 =
    field (codes "settingsConfig")
      (obj
        (field (codes "env") (obj (field (codes "ANTHROPIC_BASE_URL") (str (codes "u")) end)) end))
      end

abbrev codex_p1 : Fields
codex_p1 = field (codes "settingsConfig") (obj (field (codes "config") (str (codes "a")) end)) end

abbrev provider_of : Text → Text → Option Fields
provider_of app_type id = if text_eq app_type (codes "codex") then some codex_p1 else some claude_p1

abbrev leaked : Fields
leaked =
    field (codes "ANTHROPIC_API_KEY") (str (codes "k"))
      (field (codes "OPENAI_API_KEY") (str (codes "k")) end)

abbrev claude_child : Resolution
claude_child =
    elim (build_child_env no_json provider_of home_at step_works true leaked end (codes "claude")
      (codes "p1") false empty_home).1 [ ok r ↦ r | err e ↦ empty_resolution ]

abbrev codex_child : Resolution
codex_child =
    elim (build_child_env no_json provider_of home_at step_works true leaked end (codes "codex")
      (codes "p1") false empty_home).1 [ ok r ↦ r | err e ↦ empty_resolution ]

built_codex :
    (build_child_env no_json provider_of home_at step_works true leaked end
      (codes "codex")
      (codes "p1")
      false
      empty_home).1
    ≡ ok codex_child
unfolding build_child_env resolve_spawn_env text_eq app_type_for_cli resolve_found resolve_codex
    parse_config lookup of_home materialize write_auth_file toml_value value_here starts_with
    to_text is_space value_later write_config_file
built_codex = refl

codex_fails_closed_example :
    IsCodexEnv no_json provider_of home_at step_works true (codes "p1") false codex_child
codex_fails_closed_example =
    codex_fails_closed no_json provider_of home_at step_works true leaked end (codes "p1") false
      empty_home codex_child refl built_codex

abbrev profiles_file : Disk
profiles_file primary = document (arr (cons (obj work_profile) nil))
profiles_file f = absent

abbrev only_work : List Fields
only_work = work_profile ∷ []

listed : (list all_work accept profiles_file).1 ≡ ok only_work
unfolding list load rows_in
listed = refl

referred :
    (references_provider all_work accept (codes "claude") (codes "p1") profiles_file).1
    ≡ ok only_work
unfolding references_provider list load rows_in uses_provider normalize_profile to_text mem_text
    lower clean_roles profile_of clean_endpoint endpoint_of endpoints_of leads_to
referred = refl

abbrev no_url : Text → Option Url
no_url t = none

delete-IsGuarded_example :
    IsGuarded all_work accept no_json no_url
      (codes "1")
      9
      (codes "claude")
      (codes "p1")
      only_work
      only_work
      no_file
delete-IsGuarded_example =
    delete-IsGuarded all_work accept no_json no_url (codes "1") 9 (codes "claude") (codes "p1")
      profiles_file no_file only_work only_work refl listed referred

abbrev one_row : List Imported
one_row =
    record {
      id = codes "p1";
      app_type = codes "claude";
      name = codes "relay";
      settings_config = str (codes "{}");
    }
    ∷ []

import_again_example :
    let (ws, imported, updated) = import_list no_json 1 one_row [] in
    let (xs, imported', updated') = import_list no_json 2 one_row ws in
    (imported' ≡ 0) × (length xs ≡ length ws) × (length ws ≡ 0 + imported)
import_again_example = import_again no_json 1 2 one_row []
