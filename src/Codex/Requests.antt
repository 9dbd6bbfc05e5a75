-- ===== src/Codex/Requests.antt =====
-- lib/proxy/codex-transform.js, responsesToChat: the calls of tools and their outputs keep their
-- identifiers and their order.
use cli_provider_router.Prelude.{
  ◌≡◌, refl, sym, ap, subst, inl, inr, true, false, Bool-cases, Option, none, some, Option-cases,
  if◌then◌else◌, List, [], ◌∷◌, ◌++◌, All, Text, codes, text_eq, text_eq_sound, arith,
}
use cli_provider_router.Json.{
  Json, null, bool, num, str, arr, obj, Items, nil, cons, Fields, lookup, or_blank,
}
use cli_provider_router.Durable.{is_text}
use cli_provider_router.Hop.Routes.{is_given}
use cli_provider_router.Codex.Request.{
  Message, plain, call, output, Chat, parts_of_content, content_items, role_of_item, message_of,
  messages_of, input_items, instructions_of, tool_items, tools_of, chat_of,
}

-- The identifiers of the items of a type, in order.
abbrev pub ids_of_type : Text → Items → List (Option Json)
ids_of_type kind nil = []
ids_of_type kind (cons (obj item) vs) =
    if is_text kind (lookup (codes "type") item)
    then lookup (codes "call_id") item ∷ ids_of_type kind vs
    else ids_of_type kind vs
ids_of_type kind (cons v vs) = ids_of_type kind vs

-- The identifiers of the calls, and of the outputs, among the messages.
abbrev pub call_ids : List Message → List (Option Json)
call_ids [] = []
call_ids (call id name arguments ∷ ms) = id ∷ call_ids ms
call_ids (m ∷ ms) = call_ids ms

abbrev pub output_ids : List Message → List (Option Json)
output_ids [] = []
output_ids (output id content ∷ ms) = id ∷ output_ids ms
output_ids (m ∷ ms) = output_ids ms

-- A role that chat services know.
abbrev pub IsKnown : Message → Type 0
IsKnown (plain role ps) = is_text (codes "developer") role ≡ false
IsKnown m = Unit

role_known : (role : Option Json) → is_text (codes "developer") (role_of_item role) ≡ false
unfolding role_of_item text_eq
role_known role = elim (Bool-cases (is_text (codes "developer") role)) [
  | inl y ↦ rw y refl
  | inr n ↦ rw n n
]

-- What the messages of an input keep.
abbrev pub Keeps : Items → List Message → Type 0
Keeps vs ms =
    (call_ids ms ≡ ids_of_type (codes "function_call") vs)
    × (output_ids ms ≡ ids_of_type (codes "function_call_output") vs)
    × All IsKnown ms

-- A type that is one text is not another.
apart :
    (a b : Text) (kind : Option Json)
    → text_eq a b ≡ false
    → is_text a kind ≡ true
    → is_text b kind ≡ false
apart a b none n h = refl
apart a b (some null) n h = refl
apart a b (some (bool x)) n h = refl
apart a b (some (num x)) n h = refl
apart a b (some (arr x)) n h = refl
apart a b (some (obj x)) n h = refl
apart a b (some (str s)) n h = subst (λ t. text_eq t b ≡ false) (sym (text_eq_sound s a h)) n

types_apart :
    (text_eq (codes "message") (codes "function_call") ≡ false)
    × (text_eq (codes "message") (codes "function_call_output") ≡ false)
    × (text_eq (codes "function_call") (codes "function_call_output") ≡ false)
unfolding text_eq
types_apart = (refl, refl, refl)

message-Keeps :
    (item : Fields) (vs : Items) (ms more : List Message)
    → message_of item ≡ some ms
    → Keeps vs more
    → Keeps (cons (obj item) vs) (ms ++ more)
unfolding message_of
message-Keeps item vs ms more h k =
    let kind = lookup (codes "type") item in
    let (a, b, c) = types_apart in
    let Result : List Message → Type 0 = λ x. Keeps (cons (obj item) vs) (x ++ more) in
    elim (Bool-cases (is_text (codes "message") kind)) [
      | inl y ↦
          let no_call = apart (codes "message") (codes "function_call") kind a y in
          let no_output = apart (codes "message") (codes "function_call_output") kind b y in
          elim (Option-cases (parts_of_content (content_items (lookup (codes "content") item)))) [
            | inl n ↦ absurd (ground (arith, h, y, n))
            | inr (ps, e) ↦
                let same : plain (role_of_item (lookup (codes "role") item)) ps ∷ [] ≡ ms =
                  ground (arith, h, y, e) in
                subst Result same (
                  rw no_call (k.0),
                  rw no_output (k.1),
                  (role_known (lookup (codes "role") item), k.2),
                )
          ]
      | inr n ↦ elim (Bool-cases (is_text (codes "function_call") kind)) [
        | inl y ↦
            let no_output = apart (codes "function_call") (codes "function_call_output") kind c y in
            let same : call (lookup (codes "call_id") item) (lookup (codes "name") item)
                    (or_blank (lookup (codes "arguments") item))
                  ∷ []
                ≡ ms =
              ground (arith, h, y, n) in
            subst Result same (
              rw y (ap (λ x. lookup (codes "call_id") item ∷ x) k.0),
              rw no_output (k.1),
              (tt, k.2),
            )
        | inr m ↦ elim (Bool-cases (is_text (codes "function_call_output") kind)) [
          | inl y ↦
              let same : output (lookup (codes "call_id") item)
                      (or_blank (lookup (codes "output") item))
                    ∷ []
                  ≡ ms =
                ground (arith, h, y, n, m) in
              subst Result same
                (rw m (k.0), rw y (ap (λ x. lookup (codes "call_id") item ∷ x) k.1), (tt, k.2))
          | inr o ↦
              let same : [] ≡ ms = ground (arith, h, n, m, o) in
              subst Result same (rw m (k.0), rw o (k.1), k.2)
        ]
      ]
    ]

messages-Keeps : (vs : Items) (ms : List Message) → messages_of vs ≡ some ms → Keeps vs ms
unfolding messages_of
messages-Keeps nil ms h =
    let same : [] ≡ ms = ground arith in subst (Keeps nil) same (refl, refl, tt)
messages-Keeps (cons null vs) ms h = absurd (ground (arith, h))
messages-Keeps (cons (bool b) vs) ms h = messages-Keeps vs ms h
messages-Keeps (cons (num n) vs) ms h = messages-Keeps vs ms h
messages-Keeps (cons (str s) vs) ms h = messages-Keeps vs ms h
messages-Keeps (cons (arr is) vs) ms h = messages-Keeps vs ms h
messages-Keeps (cons (obj item) vs) ms h = elim (Option-cases (message_of item)) [
  | inl n ↦ absurd (ground (arith, h, n))
  | inr (first, e) ↦ elim (Option-cases (messages_of vs)) [
    | inl n ↦ absurd (ground (arith, h, e, n))
    | inr (more, f) ↦
        let same : first ++ more ≡ ms = ground (arith, h, e, f) in
        subst (Keeps (cons (obj item) vs)) same
          (message-Keeps item vs first more e (messages-Keeps vs more f))
  ]
]

instructions-Keeps :
    (v : Option Json) (vs : Items) (ms : List Message)
    → Keeps vs ms
    → Keeps vs (instructions_of v ++ ms)
instructions-Keeps v vs ms k = elim (Bool-cases (is_given v)) [
  | inl y ↦ rw y (k.0, k.1, (tt, k.2))
  | inr n ↦ rw n k
]

chat_messages :
    (body : Fields) (c : Chat) (vs : Items) (ms : List Message)
    → chat_of body ≡ some c
    → input_items (lookup (codes "input") body) ≡ some vs
    → messages_of vs ≡ some ms
    → instructions_of (lookup (codes "instructions") body) ++ ms ≡ c.messages
unfolding chat_of
chat_messages body c vs ms h e f = elim (Option-cases (tool_items (lookup (codes "tools") body))) [
  | inl n ↦ absurd (ground (arith, h, e, f, n))
  | inr (list, t) ↦ elim (Option-cases (tools_of list)) [
    | inl n ↦ absurd (ground (arith, h, e, f, t, n))
    | inr (ts, u) ↦ ground (arith, h, e, f, t, u)
  ]
]

-- A request that is translated has, in the order of its input, one call for each function_call item
-- and one output for each function_call_output item, with their identifiers, and no message of it
-- has the role developer.
pub chat_of-Keeps :
    (body : Fields) (c : Chat)
    → chat_of body ≡ some c
    → (vs : Items) × (input_items (lookup (codes "input") body) ≡ some vs) × Keeps vs c.messages
unfolding chat_of
chat_of-Keeps body c h = elim (Option-cases (input_items (lookup (codes "input") body))) [
  | inl n ↦ absurd (ground (arith, h, n))
  | inr (vs, e) ↦ elim (Option-cases (messages_of vs)) [
    | inl n ↦ absurd (ground (arith, h, e, n))
    | inr (ms, f) ↦
        let same : instructions_of (lookup (codes "instructions") body) ++ ms ≡ c.messages =
          chat_messages body c vs ms h e f in
        (
          vs,
          e,
          subst (Keeps vs) same (
              instructions-Keeps (lookup (codes "instructions") body) vs ms
                (messages-Keeps vs ms f)),
        )
  ]
]
