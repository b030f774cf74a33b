-- ===== src/Api/Request/Valid.antt =====
-- What the validation of a completion request lets through.
use mathlib.Core.Path.{subst}
use aegis_route.Base.{
  Bool, ℕ, suc, ◌≡◌, ◌≢◌, refl, ap, ◌∙◌, inl, inr, true, false, ◌||◌, string_key, ◌==◌, String,
  if-both, Option, none, some, List, [], ◌∷◌, All, arith, Bool-cases, Option-cases,
}
use aegis_route.Base.Int.{ℤ, pos, leb_ℤ}
use aegis_route.Base.Map.{Map}
use aegis_route.Api.Request.{
  ChatMessage, ChatRequest, Checked, denied, granted, and_then, bad_request, Body, object,
  not_object, malformed, Json, has_word, allowed_chat_fields, valid_roles, unknown_field,
  unmarshal_field, no_unknown, with_role, parse_message, parse_entries, some_entries, raw_field,
  parse_messages, blank_stop, many_stops, parse_stop, temperature_in_range, max_tokens_positive,
  with_model, with_fields, decoded, decode_chat_request,
}

-- What a check grants has the property.
abbrev pub Grants {ℓ κ} : {A : Type ℓ} → (A → Type κ) → Checked A → Type κ
Grants P (denied e) = Unit
Grants P (granted a) = P a

pub and_then-Grants {ℓ κ λ' μ} :
    {A : Type ℓ} {B : Type κ} (P : A → Type λ') (Q : B → Type μ) (c : Checked A) (f : A → Checked B)
    → Grants P c
    → ((a : A) → P a → Grants Q (f a))
    → Grants Q (and_then c f)
unfolding and_then
and_then-Grants P Q (denied e) f before after = tt
and_then-Grants P Q (granted a) f before after = after a before

abbrev pub Any {ℓ} : {A : Type ℓ} → A → Type 0
Any a = Unit {0}

pub Grants-Any {ℓ} : {A : Type ℓ} (c : Checked A) → Grants Any c
Grants-Any (denied e) = tt
Grants-Any (granted a) = tt

Grants-self {ℓ} : {A : Type ℓ} (c : Checked A) → Grants (λ a. c ≡ granted a) c
Grants-self (denied e) = tt
Grants-self (granted a) = refl

pub weaken {ℓ} :
    {A : Type ℓ} {P Q : A → Type 0} (c : Checked A)
    → ((a : A) → P a → Q a)
    → Grants P c
    → Grants Q c
weaken (denied e) step h = tt
weaken (granted a) step h = step a h

-- A turn of a valid conversation.
abbrev pub IsTurn : ChatMessage → Type 0
IsTurn m = (has_word m.role valid_roles ≡ true) × ((m.content == "") ≡ false)

abbrev pub IsNonempty : String → Type 0
IsNonempty s = (s == "") ≡ false

abbrev pub InRange : {F : Type 0} → Json F → Option F → Type 0
InRange json none = Unit {0}
InRange json (some t) = (json.below_zero t ≡ false) × (json.above_two t ≡ false)

abbrev pub IsPositive : Option ℤ → Type 0
IsPositive none = Unit {0}
IsPositive (some n) = leb_ℤ n (pos 0) ≡ false

-- A canonical request: a model that is not blank, at least one turn, each of a known role and with a
-- content, a temperature in range, a positive bound of tokens, and no empty stop sequence.
abbrev pub IsCanonical : {F : Type 0} → Json F → ChatRequest F → Type 0
IsCanonical json req =
    (json.is_blank req.model ≡ false)
    × (req.messages ≢ [])
    × All IsTurn req.messages
    × InRange json req.temperature
    × IsPositive req.max_tokens
    × All IsNonempty req.stop

module _ {F : Type 0} (json : Json F) where
  with_role-IsTurn :
      (i : ℕ) (entry : Map String String) (role : String)
      → Grants IsTurn (with_role json i entry role)
  unfolding with_role bad_request
  with_role-IsTurn i entry role =
      if-both (Grants IsTurn) (has_word role valid_roles) _ _
        (λ known. and_then-Grants Any IsTurn _ _ (Grants-Any _) (λ content u.
          if-both (Grants IsTurn) (content == "") _ _ (λ blank. tt) (λ full. (known, full))))
        (λ unknown. tt)

  parse_message-IsTurn :
      (i : ℕ) (entry : Map String String) → Grants IsTurn (parse_message json i entry)
  unfolding parse_message
  parse_message-IsTurn i entry = and_then-Grants Any IsTurn _ _ (Grants-Any _) (λ u v.
      and_then-Grants Any IsTurn _ _ (Grants-Any _) (λ role w. with_role-IsTurn i entry role))

  parse_entries-IsTurn :
      (i : ℕ) (entries : List (Map String String))
      → Grants (All IsTurn) (parse_entries json i entries)
  unfolding parse_entries
  parse_entries-IsTurn i [] = tt
  parse_entries-IsTurn i (entry ∷ entries) =
      and_then-Grants IsTurn (All IsTurn) _ _ (parse_message-IsTurn i entry) (λ m turn.
        and_then-Grants (All IsTurn) (All IsTurn) _ _ (parse_entries-IsTurn (suc i) entries)
          (λ ms turns. (turn, turns)))

  -- At least one turn, and turns only.
  abbrev IsConversation : List ChatMessage → Type 0
  IsConversation [] = ⊥
  IsConversation (m ∷ ms) = IsTurn m × All IsTurn ms

  some_entries-IsConversation :
      (entries : List (Map String String)) → Grants IsConversation (some_entries json entries)
  unfolding some_entries parse_entries bad_request
  some_entries-IsConversation [] = tt
  some_entries-IsConversation (entry ∷ entries) =
      and_then-Grants IsTurn IsConversation _ _ (parse_message-IsTurn 0 entry) (λ m turn.
        and_then-Grants (All IsTurn) IsConversation _ _ (parse_entries-IsTurn 1 entries)
          (λ ms turns. (turn, turns)))

  parse_messages-IsConversation : (raw : String) → Grants IsConversation (parse_messages json raw)
  unfolding parse_messages bad_request
  parse_messages-IsConversation raw =
      if-both (Grants IsConversation) ((raw == "") || (raw == "null")) _ _ (λ blank. tt)
        (λ full. elim (Option-cases (json.objects_of raw)) [
          | inl bad ↦ rw bad tt
          | inr (entries, good) ↦ rw good (some_entries-IsConversation entries)
        ])

  blank_stop-IsNonempty :
      (i : ℕ) (ss : List String) → blank_stop json i ss ≡ none → All IsNonempty ss
  unfolding blank_stop
  blank_stop-IsNonempty i [] same = tt
  blank_stop-IsNonempty i (s ∷ ss) same = elim (Bool-cases (s == "")) [
    | inl blank ↦ ground (arith, blank)
    | inr full ↦ (full, blank_stop-IsNonempty (suc i) ss (ground (arith, full)))
  ]

  many_stops-IsNonempty : (many : List String) → Grants (All IsNonempty) (many_stops json many)
  unfolding many_stops bad_request
  many_stops-IsNonempty [] = tt
  many_stops-IsNonempty (s ∷ many) = elim (Option-cases (blank_stop json 0 (s ∷ many))) [
    | inl full ↦ rw (many_stops, full) (blank_stop-IsNonempty 0 (s ∷ many) full)
    | inr (i, blank) ↦ rw (many_stops, blank) tt
  ]

  parse_stop-IsNonempty : (raw : String) → Grants (All IsNonempty) (parse_stop json raw)
  unfolding parse_stop bad_request
  parse_stop-IsNonempty raw =
      if-both (Grants (All IsNonempty)) ((raw == "") || (raw == "null")) _ _ (λ blank. tt)
        (λ full. elim (Option-cases (json.string_of raw)) [
          | inr (single, text) ↦ rw text (
              if-both (Grants (All IsNonempty)) (single == "") _ _ (λ blank. tt)
                (λ some_text. (some_text, tt)))
          | inl other ↦ elim (Option-cases (json.strings_of raw)) [
            | inl bad ↦ rw other (rw bad tt)
            | inr (many, list) ↦ rw other (rw list (many_stops-IsNonempty many))
          ]
        ])

  temperature_in_range-InRange :
      (o : Option F) → Grants (λ u. InRange json o) (temperature_in_range json o)
  unfolding temperature_in_range bad_request
  temperature_in_range-InRange none = tt
  temperature_in_range-InRange (some t) =
      if-both (Grants (λ u. InRange json (some t))) (json.below_zero t || json.above_two t) _ _
        (λ out. tt) (λ inside. ground (arith, inside))

  max_tokens_positive-IsPositive :
      (o : Option ℤ) → Grants (λ u. IsPositive o) (max_tokens_positive json o)
  unfolding max_tokens_positive bad_request
  max_tokens_positive-IsPositive none = tt
  max_tokens_positive-IsPositive (some n) =
      if-both (Grants (λ u. IsPositive (some n))) (leb_ℤ n (pos 0)) _ _ (λ out. tt)
        (λ inside. inside)

  with_model-IsCanonical :
      (fields : Map String String) (model : String)
      → Grants (IsCanonical json) (with_model json fields model)
  unfolding with_model bad_request
  with_model-IsCanonical fields model =
      let C = IsCanonical json in
      if-both (Grants C) (json.is_blank model) _ _ (λ blank. tt)
        (λ named.
          and_then-Grants IsConversation C _ _
            (parse_messages-IsConversation (raw_field json fields "messages"))
            (λ messages turns. and_then-Grants Any C _ _ (Grants-Any _) (λ temperature u.
              and_then-Grants (λ v. InRange json temperature) C _ _
                (temperature_in_range-InRange temperature)
                (λ v in_range. and_then-Grants Any C _ _ (Grants-Any _) (λ max_tokens w.
                  and_then-Grants (λ x. IsPositive max_tokens) C _ _
                    (max_tokens_positive-IsPositive max_tokens)
                    (λ x positive.
                      and_then-Grants (All IsNonempty) C _ _
                        (parse_stop-IsNonempty (raw_field json fields "stop"))
                        (λ stop full.
                          let (some_turn, all_turns) = conversation messages turns in
                          (named, some_turn, all_turns, in_range, positive, full))))))))
    where
      conversation : (ms : List ChatMessage) → IsConversation ms → (ms ≢ []) × All IsTurn ms
      conversation [] turns = absurd turns
      conversation (m ∷ ms) turns = ((λ e. ground arith), turns)

  no_unknown-all_known :
      (words : List String) (fields : Map String String) (message : String → String)
      → Grants (λ u. unknown_field words fields ≡ none) (no_unknown json words fields message)
  unfolding no_unknown bad_request
  no_unknown-all_known words fields message = elim (Option-cases (unknown_field words fields)) [
    | inl known ↦ rw (no_unknown, known) refl
    | inr (key, odd) ↦ rw (no_unknown, odd) tt
  ]

  -- The fields of an accepted request: all of them known, and no streaming asked for.
  abbrev pub IsPlain : Map String String → Type 0
  IsPlain fields =
      (unknown_field allowed_chat_fields fields ≡ none)
      × (unmarshal_field json json.bool_of false fields "stream" ≡ granted false)

  with_fields-accepted :
      (fields : Map String String)
      → Grants (λ req. IsPlain fields × IsCanonical json req) (with_fields json fields)
  unfolding with_fields
  with_fields-accepted fields =
      let C = λ (req : ChatRequest F). IsPlain fields × IsCanonical json req in
      and_then-Grants (λ u. unknown_field allowed_chat_fields fields ≡ none) C _ _
        (no_unknown-all_known allowed_chat_fields fields _)
        (λ u known.
          and_then-Grants (λ s. unmarshal_field json json.bool_of false fields "stream" ≡ granted s)
            C _ _ (Grants-self _)
            (λ stream read.
              if-both (Grants C) stream _ _ (λ streaming. tt)
                (λ plain. and_then-Grants Any C _ _ (Grants-Any _) (λ model v.
                  weaken (with_model json fields model)
                    (λ req canonical. ((known, read ∙ ap (λ b. granted b) plain), canonical))
                    (with_model-IsCanonical fields model)))))

  decoded-accepted :
      (body : Body) (more : Bool)
      → Grants
          (λ req.
            ((fields : Map String String) × (body ≡ object fields)
              × (more ≡ false)
              × IsPlain fields)
            × IsCanonical json req)
          (decoded json body more)
  unfolding decoded bad_request
  decoded-accepted (object fields) true = tt
  decoded-accepted (object fields) false =
      weaken (with_fields json fields)
        (λ req (plain, canonical). ((fields, refl, refl, plain), canonical))
        (with_fields-accepted fields)
  decoded-accepted not_object more = tt
  decoded-accepted malformed more = tt

  -- Validation lets through only canonical requests: the decoder's first value in the body has fields that
  -- are all known and do not ask for streaming, its More says that no value follows, and the parsed
  -- request has a model that is not blank, at least one turn, each of a known role and with a content, a
  -- temperature in range, a positive bound of tokens, and no empty stop sequence.
  pub decode_chat_request-IsCanonical :
      (raw : String) (req : ChatRequest F)
      → decode_chat_request json raw ≡ granted req
      → ((fields : Map String String) × (json.decode raw ≡ object fields)
          × (json.more raw ≡ false)
          × IsPlain fields)
        × IsCanonical json req
  unfolding decode_chat_request
  decode_chat_request-IsCanonical raw req same =
      subst (Grants _) same (decoded-accepted (json.decode raw) (json.more raw))
