-- ===== src/Profiles/Profile.antt =====
-- lib/route-profile-store.js, normalizeRouteProfile: a profile from an input and the previous one. A
-- profile is the fields of its object; `now` is Date.now(), `fresh` is crypto.randomUUID().
use cli_provider_router.Prelude.{
  ℕ, Bool, true, false, not, ◌&&◌, ◌||◌, Option, none, some, leb, ◌==◌, if◌then◌else◌, [], ◌∷◌,
  ◌++◌, length, all, Text, codes, is_empty, mem_text, trim, lower, is_lower, is_upper, is_digit,
  Result, ok, err, ◌>>=◌, ◌>>◌, require,
}
use cli_provider_router.Json.{
  Json, null, bool, num, str, obj, Fields, end, field, lookup, to_text, or_blank,
}
use cli_provider_router.Durable.{insert_field}
use cli_provider_router.Hop.Routes.{is_given, or_field}
use cli_provider_router.Ledger.Event.{is_nullish, json_or_null}
use cli_provider_router.Settings.{own_fields}

-- The errors that are thrown; a role is named by its text. `type_error` is JavaScript's own.
pub data ProfileError : Type 0 where
  not_an_object name_required bad_cli roles_not_an_object not_found type_error rejected :
      ProfileError
  bad_endpoint no_provider bad_role : Text → ProfileError

-- `value.trim()` of what `value == null ? previous || '' : value` prints.
abbrev pub text_or_previous : Option Json → Option Json → Text
text_or_previous value previous =
    trim (to_text (if is_nullish value then or_blank previous else json_or_null value))

unfoldable pub endpoint_of : Fields → Text → Result ProfileError (Option Fields)
endpoint_of fs label =
    let provider = trim (to_text (or_blank (lookup (codes "providerId") fs))) in
    let model = trim (to_text (or_blank (lookup (codes "model") fs))) in
    if is_empty provider && is_empty model
    then ok none
    else if is_empty provider
    then err (no_provider label)
    else ok (
        some (
          field (codes "providerId") (str provider)
            (if is_empty model then end else field (codes "model") (str model) end)))

unfoldable pub clean_endpoint : Option Json → Text → Result ProfileError (Option Fields)
clean_endpoint none label = ok none
clean_endpoint (some null) label = ok none
clean_endpoint (some (obj fs)) label = endpoint_of fs label
clean_endpoint (some v) label = err (bad_endpoint label)

abbrev pub letter : ℕ → Bool
letter c = is_lower c || is_upper c

abbrev pub role_letter : ℕ → Bool
role_letter c = letter c || is_digit c || c == 95 || c == 45

-- /^[a-z][a-z0-9_-]{0,63}$/i
unfoldable pub is_role_key : Text → Bool
is_role_key [] = false
is_role_key (c ∷ s) = letter c && all role_letter s && leb (length s) 63

-- The loop over the entries of the roles, with what it has built.
unfoldable pub clean_roles : Fields → Fields → Result ProfileError Fields
clean_roles end roles = ok roles
clean_roles (field role endpoint rest) roles =
    require (is_role_key (trim role)) (bad_role role)
    >> (clean_endpoint (some endpoint) (codes "roles." ++ trim role) >>= λ clean. elim clean [
      | none ↦ clean_roles rest roles
      | some e ↦ clean_roles rest (insert_field (trim role) (obj e) roles)
    ])

abbrev pub object_fields : Option Json → Result ProfileError Fields
object_fields (some (obj fs)) = ok fs
object_fields _ = err roles_not_an_object

abbrev pub endpoint_json : Option Fields → Json
endpoint_json none = null
endpoint_json (some fs) = obj fs

-- `previous.enabled !== false`
abbrev pub not_false : Option Json → Bool
not_false (some (bool false)) = false
not_false v = true

abbrev pub enabled_of : Option Json → Option Json → Bool
enabled_of value previous = if is_nullish value then not_false previous else is_given value

-- `{ ...(previous || {}) }` where the input has no object.
abbrev pub metadata_of : Option Json → Option Json → Fields
metadata_of (some (obj fs)) previous = fs
metadata_of _ previous = if is_given previous then own_fields (json_or_null previous) else end

-- `value == null ? previous : value`
abbrev pub or_previous : Option Json → Option Json → Option Json
or_previous value previous = if is_nullish value then previous else value

unfoldable pub profile_of :
    ℕ → Text → Fields → Fields → Text → Text → Fields → Result ProfileError Fields
profile_of now fresh input previous name cli roles =
    clean_endpoint (or_previous (lookup (codes "main") input) (lookup (codes "main") previous))
      (codes "main")
    >>= λ main.
        clean_endpoint
          (or_previous (lookup (codes "subagent") input) (lookup (codes "subagent") previous))
          (codes "subagent")
        >>= λ subagent.
            let id =
              or_field (lookup (codes "id") previous)
                (or_field (lookup (codes "id") input) (some (str fresh))) in
            let created = or_field (lookup (codes "createdAt") previous) (some (num now)) in
            let metadata =
              metadata_of (lookup (codes "metadata") input) (lookup (codes "metadata") previous) in
            let enabled =
              enabled_of (lookup (codes "enabled") input) (lookup (codes "enabled") previous) in
            ok (
              field (codes "id") (str (to_text (json_or_null id))) (
                field (codes "name") (str name) (
                  field (codes "cli") (str cli) (
                    field (codes "enabled") (bool enabled) (
                      field (codes "main") (endpoint_json main) (
                        field (codes "subagent") (endpoint_json subagent) (
                          field (codes "roles") (obj roles) (
                            field (codes "metadata") (obj metadata) (
                              field (codes "createdAt") (json_or_null created)
                                (field (codes "updatedAt") (num now) end))))))))))

-- The roles that are read, those of the previous profile where the input has none.
abbrev pub source_roles : Fields → Fields → Option Json
source_roles input previous =
    if is_nullish (lookup (codes "roles") input)
    then or_field (lookup (codes "roles") previous) (some (obj end))
    else lookup (codes "roles") input

unfoldable pub normalize_profile : ℕ → Text → Json → Fields → Result ProfileError Fields
normalize_profile now fresh (obj input) previous =
    let name = text_or_previous (lookup (codes "name") input) (lookup (codes "name") previous) in
    let cli =
      lower (text_or_previous (lookup (codes "cli") input) (lookup (codes "cli") previous)) in
    require (not (is_empty name)) name_required
    >> (require (mem_text cli (codes "claude" ∷ codes "codex" ∷ [])) bad_cli
        >> (object_fields (source_roles input previous) >>= λ source.
            clean_roles source end >>= λ roles. profile_of now fresh input previous name cli roles))
normalize_profile now fresh v previous = err not_an_object
