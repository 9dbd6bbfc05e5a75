-- ===== src/Json.antt =====
-- The values of JSON documents, as JSON.parse gives them. Numbers are natural numbers: revisions,
-- versions, times and counts.
use Prim.Native.Nat.{◌*◌, ◌/◌, ◌%◌}
use cli_provider_router.Prelude.{
  ℕ, zero, suc, ◌+◌, ◌-◌, ◌++◌, ◌≡◌, refl, not, ltb, ◌==◌, is_empty, Bool, true, false, Option,
  none, some, [], ◌∷◌, Text, codes, text_eq, trim, is_digit, if◌then◌else◌,
}

mutual
  pub data Json : Type 0 where
    null : Json
    bool : Bool → Json
    num : ℕ → Json
    str : Text → Json
    arr : Items → Json
    obj : Fields → Json

  pub data Items : Type 0 where
    nil : Items
    cons : Json → Items → Items

  pub data Fields : Type 0 where
    end : Fields
    field : Text → Json → Fields → Fields

-- `value.key` on the fields of an object; `none` is `undefined`.
unfoldable pub lookup : Text → Fields → Option Json
lookup k end = none
lookup k (field j v fs) = if text_eq j k then some v else lookup k fs

-- The value of the decimal digits, read from the left; `none` is NaN.
unfoldable pub digits_value : ℕ → Text → Option ℕ
digits_value acc [] = some acc
digits_value acc (c ∷ s) =
    let rest = digits_value (acc * 10 + (c - 48)) s in if is_digit c then rest else none

-- `Number(text)`; the empty text is 0. Signs, fractions, exponents and hexadecimal are not read.
unfoldable pub text_number : Text → Option ℕ
unfolding digits_value trim
text_number s = digits_value 0 (trim s)

-- `Number(String(value))`, which an array of one item comes to.
unfoldable pub printed_number : Json → Option ℕ
unfolding text_number
printed_number null = some 0
printed_number (bool b) = none
printed_number (num n) = some n
printed_number (str s) = text_number s
printed_number (arr nil) = some 0
printed_number (arr (cons v nil)) = printed_number v
printed_number (arr (cons v (cons w vs))) = none
printed_number (obj fs) = none

-- `Number(value)`; `none` is NaN.
unfoldable pub to_number : Json → Option ℕ
unfolding printed_number
to_number null = some 0
to_number (bool true) = some 1
to_number (bool false) = some 0
to_number (num n) = some n
to_number (str s) = text_number s
to_number (arr vs) = printed_number (arr vs)
to_number (obj fs) = none

-- The decimal digits of a number, from the last, before those that follow.
decimal_from : ℕ → ℕ → Text → Text
decimal_from zero n rest = rest
decimal_from (suc fuel) n rest = elim (ltb n 10) [
  | true ↦ (n + 48) ∷ rest
  | false ↦ decimal_from fuel (n / 10) ((n % 10 + 48) ∷ rest)
]

-- `String(n)`; a number has no more digits than its successor counts.
unfoldable pub decimal : ℕ → Text
unfolding decimal_from
decimal n = decimal_from (suc n) n []

-- A null item of an array prints as nothing.
abbrev item_text : Json → Text → Text
item_text null t = []
item_text v t = t

-- `String(value)`.
unfoldable mutual
  pub to_text : Json → Text
  to_text null = codes "null"
  to_text (bool true) = codes "true"
  to_text (bool false) = codes "false"
  to_text (num n) = decimal n
  to_text (str s) = s
  to_text (arr vs) = join_items vs
  to_text (obj fs) = codes "[object Object]"

  pub join_items : Items → Text
  join_items nil = []
  join_items (cons v nil) = item_text v (to_text v)
  join_items (cons v (cons w vs)) = item_text v (to_text v) ++ (codes "," ++ join_items (cons w vs))

-- Whether a condition on the value holds.
abbrev pub truthy : Json → Bool
truthy null = false
truthy (bool b) = b
truthy (num n) = not (n == 0)
truthy (str s) = not (is_empty s)
truthy _ = true

-- `value || ''` of a field that may be missing.
abbrev pub or_blank : Option Json → Json
or_blank none = str []
or_blank (some v) = if truthy v then v else str []

to_number_text : to_number (arr (cons (str (codes " 42 ")) nil)) ≡ some 42
unfolding to_number
to_number_text = refl

list_text : to_text (arr (cons (num 1204) (cons null (cons (bool true) nil)))) ≡ codes "1204,,true"
unfolding to_text decimal
list_text = refl
