-- ===== src/Hop/Routes.antt =====
-- lib/proxy/hop-credentials.js, cleanPart, normalizeRole, normalizeRoute, routeKey and bearerToken:
-- the route that a credential is for. An input object is the fields of a JSON object.
use cli_provider_router.Prelude.{
  ℕ, Bool, true, false, not, ◌&&◌, ◌||◌, Option, none, some, or_else, leb, ◌==◌, if◌then◌else◌,
  List, [], ◌∷◌, length, all, Text, codes, text_eq, is_empty, mem_text, trim, lower, is_alnum,
  is_lower, is_digit, Result, ok, err, ◌>>=◌, ◌>>◌, require,
}
use cli_provider_router.Json.{Json, null, str, Fields, end, field, lookup, to_text, truthy}

-- The errors that are thrown, `invalid_part` with the label of the part.
pub data HopError : Type 0 where
  invalid_part : Text → HopError
  invalid_route_name bad_role_kind bad_bundle_size duplicate_routes bad_expiry unsupported_schema :
      HopError

abbrev pub part_char : ℕ → Bool
part_char c = is_alnum c || c == 46 || c == 95 || c == 45

-- /^[a-zA-Z0-9][a-zA-Z0-9._-]{0,127}$/
unfoldable pub is_part : Text → Bool
is_part [] = false
is_part (c ∷ s) = is_alnum c && all part_char s && leb (length s) 127

abbrev pub role_char : ℕ → Bool
role_char c = is_lower c || is_digit c || c == 95 || c == 45

-- /^[a-z][a-z0-9_-]{0,63}$/
unfoldable pub is_role_name : Text → Bool
is_role_name [] = false
is_role_name (c ∷ s) = is_lower c && all role_char s && leb (length s) 63

-- `value == null ? '' : value`
abbrev pub present : Option Json → Json
present none = str []
present (some null) = str []
present (some v) = v

unfoldable pub clean_part : Option Json → Text → Bool → Result HopError Text
unfolding trim is_part
clean_part value label allow_empty =
    let part = trim (to_text (present value)) in
    if is_empty part && allow_empty
    then ok []
    else if is_empty part || not (is_part part)
    then err (invalid_part label)
    else ok part

pub record Role : Type 0 where
  pub is_valid : Bool
  pub role_kind : Text
  pub agent_role : Text
  pub route_name : Text

abbrev pub role_kinds : List Text
role_kinds = codes "main" ∷ codes "sub" ∷ codes "aux" ∷ []

abbrev pub builtin_agent_roles : List Text
builtin_agent_roles = codes "default" ∷ codes "worker" ∷ codes "explorer" ∷ []

abbrev pub is_given : Option Json → Bool
is_given none = false
is_given (some v) = truthy v

-- `a || b` of a field that may be missing.
abbrev pub or_field : Option Json → Option Json → Option Json
or_field a b = if is_given a then a else b

-- String(input.routeName || input.agentRole || input.role || 'main').trim().toLowerCase()
unfoldable pub raw_role : Fields → Text
unfolding trim lower
raw_role input = lower (
    trim (
      to_text (
        or_else
          (or_field (lookup (codes "routeName") input) (
            or_field (lookup (codes "agentRole") input)
              (or_field (lookup (codes "role") input) (some (str (codes "main"))))))
          (str (codes "main")))))

unfoldable pub role_of : Text → Role
unfolding text_eq is_role_name mem_text
role_of raw =
    if text_eq raw (codes "main")
    then record {
      is_valid = true;
      role_kind = codes "main";
      agent_role = [];
      route_name = codes "main";
    }
    else if text_eq raw (codes "aux")
    then record {
      is_valid = true;
      role_kind = codes "aux";
      agent_role = [];
      route_name = codes "aux";
    }
    else if text_eq raw (codes "sub")
    then record {
      is_valid = true;
      role_kind = codes "sub";
      agent_role = codes "default";
      route_name = codes "default";
    }
    else if is_role_name raw
    then record {
      is_valid = true;
      role_kind = codes "sub";
      agent_role = if mem_text raw builtin_agent_roles then raw else codes "custom";
      route_name = raw;
    }
    else record {
      is_valid = false;
      role_kind = codes "sub";
      agent_role = codes "custom";
      route_name = [];
    }

unfoldable pub normalize_role : Fields → Role
normalize_role input = role_of (raw_role input)

pub record Route : Type 0 where
  pub cli : Text
  pub provider_id : Text
  pub session_id : Text
  pub role_kind : Text
  pub agent_role : Text
  pub route_name : Text

-- `cleanPart(value, label).toLowerCase()`
unfoldable pub lower_part : Option Json → Text → Result HopError Text
unfolding clean_part lower
lower_part value label = clean_part value label false >>= λ part. ok (lower part)

-- `input.roleKind == null ? role.roleKind : cleanPart(input.roleKind, 'roleKind').toLowerCase()`
unfoldable pub role_kind_of : Option Json → Role → Result HopError Text
role_kind_of none role = ok role.role_kind
role_kind_of (some null) role = ok role.role_kind
role_kind_of (some v) role = lower_part (some v) (codes "roleKind")

-- `value ? cleanPart(value, label).toLowerCase() : fallback`, for a sub agent.
unfoldable pub sub_part : Text → Option Json → Text → Text → Text → Result HopError Text
sub_part kind value label fallback other =
    if text_eq kind (codes "sub")
    then (if is_given value then lower_part value label else ok fallback)
    else ok other

-- The object that is returned, its parts in the order in which they are cleaned.
unfoldable pub route_with : Fields → Role → Text → Result HopError Route
unfolding lower_part sub_part
route_with input role kind = lower_part (lookup (codes "cli") input) (codes "cli") >>= λ cli.
    clean_part (lookup (codes "providerId") input) (codes "providerId") false >>= λ provider_id.
    clean_part (lookup (codes "sessionId") input) (codes "sessionId") false >>= λ session_id.
    sub_part kind (lookup (codes "agentRole") input) (codes "agentRole") role.agent_role []
    >>= λ agent_role.
        sub_part kind (lookup (codes "routeName") input) (codes "routeName") role.route_name kind
        >>= λ route_name. ok (record {
          cli = cli;
          provider_id = provider_id;
          session_id = session_id;
          role_kind = kind;
          agent_role = agent_role;
          route_name = route_name;
        })

unfoldable pub normalize_route : Fields → Result HopError Route
unfolding normalize_role role_kind_of route_with
normalize_route input =
    let role = normalize_role input in
    require role.is_valid invalid_route_name
    >> (role_kind_of (lookup (codes "roleKind") input) role >>= λ kind.
        require (mem_text kind role_kinds) bad_role_kind >> route_with input role kind)

-- A route handed in as an input again.
abbrev pub fields_of : Route → Fields
fields_of r = field (codes "cli") (str r.cli) (
    field (codes "providerId") (str r.provider_id) (
      field (codes "sessionId") (str r.session_id) (
        field (codes "roleKind") (str r.role_kind) (
          field (codes "agentRole") (str r.agent_role)
            (field (codes "routeName") (str r.route_name) end)))))
