-- ===== src/Api/Request.antt =====
-- internal/api/chat.go, decodeChatRequest: the strict validation of a completion request. encoding/json,
-- fmt's %q, strings.TrimSpace and the comparison of float64 are parameters; raw JSON is a text, and a
-- JSON object is the map of its fields. Go's order of iteration over the keys is open; the model takes
-- the order of the fields.
pub mod Valid
use Prim.Native.String.{◌++◌ as concat}
use aegis_route.Base.{
  ℕ, suc, Bool, true, false, ◌||◌, string_key, ◌==◌, String, if◌then◌else◌, Option, none, some,
  List, [], ◌∷◌,
}
use aegis_route.Base.Int.{ℤ, pos, leb_ℤ}
use aegis_route.Base.Map.{Map, lookup}
use aegis_route.Base.Text.{decimal}

pub record ChatMessage : Type 0 where
  pub role : String
  pub content : String

-- `F` is float64.
pub record ChatRequest (F : Type 0) : Type 0 where
  pub model : String
  pub messages : List ChatMessage
  pub temperature : Option F
  pub max_tokens : Option ℤ
  pub stop : List String

pub record ChatError : Type 0 where
  pub status : ℕ
  pub code : String
  pub message : String

-- The answer of a check that may refuse.
pub data Checked {ℓ} (A : Type ℓ) : Type ℓ where
  denied : ChatError → Checked A
  granted : A → Checked A

unfoldable pub and_then {ℓ κ} : {A : Type ℓ} {B : Type κ} → Checked A → (A → Checked B) → Checked B
and_then (denied e) f = denied e
and_then (granted a) f = f a

unfoldable pub bad_request {ℓ} : {A : Type ℓ} → String → Checked A
bad_request text = denied (record { status = 400; code = "bad_request"; message = text })

-- What decoding a body into a map of fields comes to: the fields; a value of another type; and any other
-- error.
pub data Body : Type 0 where
  object : Map String String → Body
  not_object malformed : Body

-- The libraries. `decode` is the first Decode of a json.Decoder on the text, `more` what its More says
-- after it, and `unmarshal` is json.Unmarshal of the whole text; both leave the fields of a map. More is
-- true unless the text ends, or goes on with a closing bracket or brace. The others answer with the
-- value that json.Unmarshal leaves in a zero variable.
pub record Json (F : Type 0) : Type 0 where
  pub decode : String → Body
  pub more : String → Bool
  pub unmarshal : String → Body
  pub bool_of : String → Option Bool
  pub string_of : String → Option String
  pub float_of : String → Option F
  pub int_of : String → Option ℤ
  pub strings_of : String → Option (List String)
  pub objects_of : String → Option (List (Map String String))
  pub is_blank : String → Bool
  pub quoted : String → String
  pub below_zero : F → Bool
  pub above_two : F → Bool

abbrev pub has_word : String → List String → Bool
has_word x [] = false
has_word x (y ∷ ys) = (y == x) || has_word x ys

abbrev pub allowed_chat_fields : List String
allowed_chat_fields = "model" ∷ "messages" ∷ "temperature" ∷ "max_tokens" ∷ "stream" ∷ "stop" ∷ []

abbrev pub valid_roles : List String
valid_roles = "system" ∷ "user" ∷ "assistant" ∷ []

-- The first field that is not among the words.
unfoldable pub unknown_field : List String → Map String String → Option String
unknown_field words [] = none
unknown_field words ((k, v) ∷ fields) =
    let rest = unknown_field words fields in if has_word k words then rest else some k

-- The text "name[i]" before a rest.
abbrev pub at_index : String → ℕ → String → String
at_index name i rest = concat name (concat "[" (concat (decimal i) (concat "]" rest)))

module _ {F : Type 0} (json : Json F) where
  -- What json.Unmarshal answers for a field.
  typed : {A : Type 0} → String → Option A → Checked A
  unfolding bad_request
  typed key none = bad_request (concat "invalid type for field " (json.quoted key))
  typed key (some a) = granted a

  field_value : {A : Type 0} → (String → Option A) → A → String → Option String → Checked A
  unfolding typed
  field_value read zero key none = granted zero
  field_value read zero key (some raw) =
      if raw == "null" then granted zero else typed key (read raw)

  -- unmarshalField, into a variable that holds `zero`.
  unfoldable pub unmarshal_field :
      {A : Type 0} → (String → Option A) → A → Map String String → String → Checked A
  unfolding field_value
  unmarshal_field read zero fields key = field_value read zero key (lookup key fields)

  -- A string field of an entry of an array; `name` is what the error calls it.
  unfoldable pub entry_string : Map String String → String → String → Checked String
  unfolding bad_request
  entry_string entry key name = elim (lookup key entry) as (λ o. Checked String) [
    | none ↦ granted ""
    | some raw ↦ elim (json.string_of raw) as (λ o. Checked String) [
      | none ↦ bad_request (concat "invalid type for " name)
      | some text ↦ granted text
    ]
  ]

  unfoldable pub no_unknown :
      List String → Map String String → (String → String) → Checked (Unit {0})
  unfolding bad_request unknown_field
  no_unknown words fields message = elim (unknown_field words fields) as (λ o. Checked (Unit {0})) [
    | none ↦ granted tt
    | some key ↦ bad_request (message key)
  ]

  with_role : ℕ → Map String String → String → Checked ChatMessage
  unfolding bad_request entry_string
  with_role i entry role =
      let contents = entry_string entry "content" (at_index "messages" i ".content") in
      let checked = and_then contents (λ content.
        if content == ""
        then bad_request (at_index "messages" i ".content must be a non-empty string")
        else granted (record { role = role; content = content })) in
      if has_word role valid_roles
      then checked
      else bad_request (at_index "messages" i ".role must be one of system, user, assistant")

  -- One turn of the loop of parseMessages.
  parse_message : ℕ → Map String String → Checked ChatMessage
  unfolding entry_string no_unknown with_role
  parse_message i entry =
      and_then
        (no_unknown ("role" ∷ "content" ∷ []) entry (λ key.
          concat "unsupported field " (concat (json.quoted key) (at_index " in messages" i ""))))
        (λ none_.
          and_then (entry_string entry "role" (at_index "messages" i ".role"))
            (λ role. with_role i entry role))

  -- The loop of parseMessages from its i-th entry.
  unfoldable pub parse_entries : ℕ → List (Map String String) → Checked (List ChatMessage)
  unfolding parse_message
  parse_entries i [] = granted []
  parse_entries i (entry ∷ entries) =
      let rest = parse_entries (suc i) entries in
      and_then (parse_message i entry) (λ m. and_then rest (λ ms. granted (m ∷ ms)))

  some_entries : List (Map String String) → Checked (List ChatMessage)
  unfolding bad_request parse_entries
  some_entries [] = bad_request "messages must be a non-empty array"
  some_entries (entry ∷ entries) = parse_entries 0 (entry ∷ entries)

  -- `rawFields[key]`: a missing field is the empty message.
  abbrev raw_field : Map String String → String → String
  raw_field fields key = elim (lookup key fields) [ none ↦ "" | some raw ↦ raw ]

  unfoldable pub parse_messages : String → Checked (List ChatMessage)
  unfolding bad_request some_entries
  parse_messages raw =
      let entries = elim (json.objects_of raw) as (λ o. Checked (List ChatMessage)) [
        | none ↦ bad_request "invalid type for field \"messages\""
        | some found ↦ some_entries found
      ] in
      if (raw == "") || (raw == "null")
      then bad_request "messages must be a non-empty array"
      else entries

  -- The index of the first blank stop sequence, from i.
  blank_stop : ℕ → List String → Option ℕ
  blank_stop i [] = none
  blank_stop i (s ∷ ss) = let rest = blank_stop (suc i) ss in if s == "" then some i else rest

  many_stops : List String → Checked (List String)
  unfolding bad_request blank_stop
  many_stops [] = bad_request "stop array must not be empty"
  many_stops (s ∷ ss) = elim (blank_stop 0 (s ∷ ss)) as (λ o. Checked (List String)) [
    | none ↦ granted (s ∷ ss)
    | some i ↦ bad_request (at_index "stop" i " must be a non-empty string")
  ]

  unfoldable pub parse_stop : String → Checked (List String)
  unfolding bad_request many_stops
  parse_stop raw =
      let parsed = elim (json.string_of raw) as (λ o. Checked (List String)) [
        | some single ↦
            if single == ""
            then bad_request "stop must not be an empty string"
            else granted (single ∷ [])
        | none ↦ elim (json.strings_of raw) as (λ o. Checked (List String)) [
          | none ↦ bad_request "stop must be a string or an array of strings"
          | some many ↦ many_stops many
        ]
      ] in
      if (raw == "") || (raw == "null") then granted [] else parsed

  temperature_in_range : Option F → Checked (Unit {0})
  unfolding bad_request
  temperature_in_range none = granted tt
  temperature_in_range (some t) =
      if json.below_zero t || json.above_two t
      then bad_request "temperature must be between 0 and 2"
      else granted tt

  max_tokens_positive : Option ℤ → Checked (Unit {0})
  unfolding bad_request
  max_tokens_positive none = granted tt
  max_tokens_positive (some n) =
      if leb_ℤ n (pos 0) then bad_request "max_tokens must be greater than 0" else granted tt

  -- An optional field, which json.Unmarshal stores behind a pointer.
  abbrev pointer : {A : Type 0} → (String → Option A) → String → Option (Option A)
  pointer read raw = elim (read raw) [ none ↦ none | some a ↦ some (some a) ]

  -- decodeChatRequest from the check of the model.
  with_model : Map String String → String → Checked (ChatRequest F)
  unfolding bad_request unmarshal_field parse_messages parse_stop temperature_in_range
      max_tokens_positive
  with_model fields model =
      let checked = and_then (parse_messages (raw_field fields "messages")) (λ messages.
        and_then (unmarshal_field (pointer json.float_of) none fields "temperature") (λ temperature.
          and_then (temperature_in_range temperature) (λ in_range.
            and_then (unmarshal_field (pointer json.int_of) none fields "max_tokens") (λ max_tokens.
              and_then (max_tokens_positive max_tokens) (λ positive.
                and_then (parse_stop (raw_field fields "stop")) (λ stop. granted (record {
                  model = model;
                  messages = messages;
                  temperature = temperature;
                  max_tokens = max_tokens;
                  stop = stop;
                }))))))) in
      if json.is_blank model then bad_request "model is required" else checked

  with_fields : Map String String → Checked (ChatRequest F)
  unfolding no_unknown unmarshal_field with_model
  with_fields fields =
      and_then
        (no_unknown allowed_chat_fields fields
          (λ key. concat "unsupported field " (json.quoted key)))
        (λ none_. and_then (unmarshal_field json.bool_of false fields "stream") (λ stream.
          let rest =
            and_then (unmarshal_field json.string_of "" fields "model")
              (λ model. with_model fields model) in
          if stream
          then denied (record {
            status = 400;
            code = "unsupported_streaming";
            message = "streaming is not supported; set stream to false or omit it";
          })
          else rest))

  -- classifyDecodeError is the case of the two decoding errors; the flag is the answer of More.
  decoded : Body → Bool → Checked (ChatRequest F)
  unfolding bad_request with_fields
  decoded not_object more = bad_request "request body must be a JSON object"
  decoded malformed more = bad_request "request body is not valid JSON"
  decoded (object fields) more =
      if more
      then bad_request "request body must contain a single JSON object"
      else with_fields fields

  -- decodeChatRequest.
  unfoldable pub decode_chat_request : String → Checked (ChatRequest F)
  unfolding decoded
  decode_chat_request raw = decoded (json.decode raw) (json.more raw)
