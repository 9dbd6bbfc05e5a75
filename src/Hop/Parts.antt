-- ===== src/Hop/Parts.antt =====
-- The texts that lib/proxy/hop-credentials.js, cleanPart, lets through: cleaning and lowering keep
-- them as they are.
use cli_provider_router.Prelude.{
  ℕ, ◌≡◌, refl, ap₂, inl, inr, true, false, Option, some, [], ◌∷◌, length, all, Text, is_space,
  trim_start, trim_end, trim, lower_code, lower, is_alnum, ok, Result-cases, arith,
}
use cli_provider_router.Json.{Json, str, to_text}
use cli_provider_router.Hop.Routes.{part_char, is_part, clean_part, lower_part}

is_space-part_char : (c : ℕ) → part_char c ≡ true → is_space c ≡ false
unfolding is_space
is_space-part_char c h = ground arith

trim_end-parts : (s : Text) → all part_char s ≡ true → trim_end s ≡ s
unfolding trim_end
trim_end-parts [] h = refl
trim_end-parts (c ∷ s) h = ground (arith, is_space-part_char c, trim_end-parts s)

pub trim-part : (s : Text) → is_part s ≡ true → trim s ≡ s
unfolding trim trim_start is_part
trim-part [] h = refl
trim-part (c ∷ s) h = ground (arith, is_space-part_char c, trim_end-parts (c ∷ s))

part_char-lower_code : (c : ℕ) → part_char c ≡ true → part_char (lower_code c) ≡ true
unfolding lower_code
part_char-lower_code c h = ground arith

alnum-lower_code : (c : ℕ) → is_alnum c ≡ true → is_alnum (lower_code c) ≡ true
unfolding lower_code
alnum-lower_code c h = ground arith

lower_code-again : (c : ℕ) → lower_code (lower_code c) ≡ lower_code c
unfolding lower_code
lower_code-again c = ground arith

parts-lower : (s : Text) → all part_char s ≡ true → all part_char (lower s) ≡ true
unfolding lower
parts-lower [] h = refl
parts-lower (c ∷ s) h = ground (arith, part_char-lower_code c, parts-lower s)

length-lower : (s : Text) → length (lower s) ≡ length s
unfolding lower
length-lower [] = refl
length-lower (c ∷ s) = ground (arith, length-lower s)

pub is_part-lower : (s : Text) → is_part s ≡ true → is_part (lower s) ≡ true
unfolding lower is_part
is_part-lower [] h = ground arith
is_part-lower (c ∷ s) h = ground (arith, alnum-lower_code c, parts-lower s, length-lower s)

pub lower-again : (s : Text) → lower (lower s) ≡ lower s
unfolding lower
lower-again [] = refl
lower-again (c ∷ s) = ap₂ (λ d t. d ∷ t) (lower_code-again c) (lower-again s)

-- What is let through matches the expression.
pub clean_part-IsPart :
    (v : Option Json) (label t : Text) → clean_part v label false ≡ ok t → is_part t ≡ true
unfolding clean_part
clean_part-IsPart v label t h = ground arith

-- A text that matches is let through as it is.
pub clean_part-str :
    (t label : Text) → is_part t ≡ true → clean_part (some (str t)) label false ≡ ok t
unfolding clean_part to_text is_part
clean_part-str [] label h = ground arith
clean_part-str (c ∷ s) label h = ground (arith, trim-part (c ∷ s))

-- A text in lower case.
abbrev pub IsLow : Text → Type 0
IsLow t = lower t ≡ t

pub lower_part-IsPart :
    (v : Option Json) (label t : Text) → lower_part v label ≡ ok t → (is_part t ≡ true) × IsLow t
unfolding lower_part
lower_part-IsPart v label t h = elim (Result-cases (clean_part v label false)) [
  | inl (a, e) ↦ ground (arith, clean_part-IsPart v label a e, is_part-lower a, lower-again a)
  | inr (x, e) ↦ ground arith
]

pub lower_part-str :
    (t label : Text) → is_part t ≡ true → IsLow t → lower_part (some (str t)) label ≡ ok t
unfolding lower_part
lower_part-str t label h low = ground (arith, clean_part-str t label h)
