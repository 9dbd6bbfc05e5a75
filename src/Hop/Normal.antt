-- ===== src/Hop/Normal.antt =====
-- lib/proxy/hop-credentials.js, normalizeRole: a valid role has a kind, a name and an agent role
-- that cleaning and lowering keep.
use cli_provider_router.Prelude.{
  ℕ, ◌≡◌, refl, sym, subst, ◌⊎◌, inl, inr, true, false, Bool-cases, [], ◌∷◌, all, Text, codes,
  text_eq, text_eq_sound, mem_text, lower, lower_code, arith,
}
use cli_provider_router.Hop.Routes.{
  part_char, is_part, role_char, is_role_name, Role, role_kinds, role_of,
}
use cli_provider_router.Hop.Parts.{IsLow}

-- A name that is a part in lower case and names a role.
abbrev pub IsName : Text → Type 0
IsName t = (is_part t ≡ true) × IsLow t × ((role_of t).is_valid ≡ true)

-- The agent role under a name: none, where the name has none either, or a part in lower case.
abbrev pub IsAgent : Text → Text → Type 0
IsAgent name agent =
    ((agent ≡ []) × ((role_of name).agent_role ≡ [])) ⊎ ((is_part agent ≡ true) × IsLow agent)

role_char-lower_code : (c : ℕ) → role_char c ≡ true → (lower_code c ≡ c) × (part_char c ≡ true)
unfolding lower_code
role_char-lower_code c h = ground arith

role_chars : (s : Text) → all role_char s ≡ true → (lower s ≡ s) × (all part_char s ≡ true)
unfolding lower
role_chars [] h = (refl, refl)
role_chars (c ∷ s) h = ground (arith, role_char-lower_code c, role_chars s)

role_name-IsPart : (t : Text) → is_role_name t ≡ true → (is_part t ≡ true) × IsLow t
unfolding is_role_name is_part lower
role_name-IsPart [] h = ground arith
role_name-IsPart (c ∷ s) h = ground (arith, role_char-lower_code c, role_chars s)

-- A role that is valid gives a kind, a name and an agent role that are.
abbrev pub GoodRole : Role → Type 0
GoodRole r =
    (mem_text r.role_kind role_kinds ≡ true)
    × IsName r.route_name
    × IsAgent r.route_name r.agent_role

main_role : GoodRole (role_of (codes "main"))
unfolding role_of is_part lower mem_text
main_role = (refl, (refl, refl, refl), inl (refl, refl))

aux_role : GoodRole (role_of (codes "aux"))
unfolding role_of is_part lower mem_text
aux_role = (refl, (refl, refl, refl), inl (refl, refl))

sub_role : GoodRole (role_of (codes "sub"))
unfolding role_of is_part lower mem_text
sub_role = (refl, (refl, refl, refl), inr (refl, refl))

custom_part : (is_part (codes "custom") ≡ true) × IsLow (codes "custom")
unfolding is_part lower
custom_part = (refl, refl)

sub_kind : mem_text (codes "sub") role_kinds ≡ true
unfolding mem_text text_eq
sub_kind = refl

other_role :
    (raw : Text)
    → text_eq raw (codes "main") ≡ false
    → text_eq raw (codes "aux") ≡ false
    → text_eq raw (codes "sub") ≡ false
    → (role_of raw).is_valid ≡ true
    → GoodRole (role_of raw)
unfolding role_of
other_role raw m a s v = ground (arith, role_name-IsPart raw, custom_part, sub_kind)

pub role_of-Good : (raw : Text) → (role_of raw).is_valid ≡ true → GoodRole (role_of raw)
role_of-Good raw v = elim (Bool-cases (text_eq raw (codes "main"))) [
  | inl m ↦ subst (λ t. GoodRole (role_of t)) (sym (text_eq_sound raw (codes "main") m)) main_role
  | inr m ↦ elim (Bool-cases (text_eq raw (codes "aux"))) [
    | inl a ↦ subst (λ t. GoodRole (role_of t)) (sym (text_eq_sound raw (codes "aux") a)) aux_role
    | inr a ↦ elim (Bool-cases (text_eq raw (codes "sub"))) [
      | inl s ↦ subst (λ t. GoodRole (role_of t)) (sym (text_eq_sound raw (codes "sub") s)) sub_role
      | inr s ↦ other_role raw m a s v
    ]
  ]
]
