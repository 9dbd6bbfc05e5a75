-- ===== src/Hop/Keys.antt =====
-- lib/proxy/hop-credentials.js, routeKey and bearerToken: the text by which the store finds a
-- route, and the token of a request. encodeURIComponent is written out for ASCII, which the parts
-- of a route are.
use Prim.Native.Nat.{◌/◌, ◌%◌}
use cli_provider_router.Prelude.{
  ℕ, ◌+◌, Bool, not, ◌&&◌, ◌||◌, Option, none, some, ltb, ◌==◌, if◌then◌else◌, List, [], ◌∷◌, ◌++◌,
  any, take, drop, Text, codes, text_eq, is_empty, trim, trim_start, lower, is_alnum, is_space,
  Result, ok, ◌>>=◌,
}
use cli_provider_router.Json.{Fields, lookup, to_text, or_blank}
use cli_provider_router.Hop.Routes.{HopError, Route, or_field, normalize_route}

abbrev hex_digit : ℕ → ℕ
hex_digit n = if ltb n 10 then n + 48 else n + 55

-- The characters that encodeURIComponent keeps: letters, digits and - _ . ! ~ * ' ( )
abbrev pub is_unreserved : ℕ → Bool
is_unreserved c =
    is_alnum c
    || c == 45
    || c == 95
    || c == 46
    || c == 33
    || c == 126
    || c == 42
    || c == 39
    || c == 40
    || c == 41

unfoldable pub encode_uri_component : Text → Text
encode_uri_component [] = []
encode_uri_component (c ∷ s) =
    let rest = encode_uri_component s in
    if is_unreserved c then c ∷ rest else 37 ∷ hex_digit (c / 16) ∷ hex_digit (c % 16) ∷ rest

-- `parts.map(encodeURIComponent).join('|')`
unfoldable pub join_parts : List Text → Text
unfolding encode_uri_component
join_parts [] = []
join_parts (p ∷ []) = encode_uri_component p
join_parts (p ∷ q ∷ ps) = encode_uri_component p ++ (124 ∷ join_parts (q ∷ ps))

abbrev pub parts_of : Route → List Text
parts_of r = r.cli ∷ r.provider_id ∷ r.session_id ∷ r.role_kind ∷ r.agent_role ∷ r.route_name ∷ []

unfoldable pub route_key : Fields → Result HopError Text
route_key input = normalize_route input >>= λ route. ok (join_parts (parts_of route))

-- The line ends, which `.` does not match.
abbrev is_line_end : ℕ → Bool
is_line_end c = c == 10 || c == 13 || c == 0x2028 || c == 0x2029

-- What /^Bearer\s+(.+)$/i captures in a trimmed text: the white space is taken whole, since what
-- follows it may hold no line end either way.
unfoldable pub match_bearer : Text → Option Text
unfolding text_eq lower trim_start is_space
match_bearer raw =
    let after = drop 6 raw in
    let token = trim_start after in
    if text_eq (lower (take 6 raw)) (codes "bearer")
      && any is_space (take 1 after)
      && not (is_empty token)
      && not (any is_line_end token)
    then some token
    else none

unfoldable pub bearer_token : Fields → Text
unfolding match_bearer trim to_text
bearer_token headers =
    let raw = trim (
      to_text (
        or_blank (
          or_field (lookup (codes "authorization") headers)
            (lookup (codes "Authorization") headers)))) in
    elim (match_bearer raw) [
      | some token ↦ trim token
      | none ↦ trim (
          to_text (
            or_blank
              (or_field (lookup (codes "x-api-key") headers) (lookup (codes "X-Api-Key") headers))))
    ]
