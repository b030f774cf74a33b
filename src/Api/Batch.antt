-- ===== src/Api/Batch.antt =====
-- internal/api/batch.go, decodeBatchCreate: the strict validation of a batch, which reuses that of a
-- completion request for each body. encoding/json and %q are parameters, as in Api/Request.
pub mod Valid
use Prim.Native.String.{◌++◌ as concat}
use aegis_route.Base.{
  ℕ, suc, string_key, ◌==◌, String, ltb, if◌then◌else◌, Option, none, some, List, [], ◌∷◌, ◌++◌,
  length, map,
}
use aegis_route.Base.Map.{Map, lookup}
use aegis_route.Base.Text.{decimal}
use aegis_route.Api.Request.{
  ChatRequest, Checked, denied, granted, and_then, bad_request, Body, object, not_object, malformed,
  Json, has_word, at_index, no_unknown, entry_string, decode_chat_request,
}

-- The caller's id of an item, and its canonical body.
pub record BatchItemInput : Type 0 where
  pub custom_id : String
  pub body : String

abbrev pub max_batch_requests : ℕ
max_batch_requests = 100

-- The items so far of the loop of decodeBatchCreate: the shared model, and the items with their ids.
pub record Gathered : Type 0 where
  pub model : String
  pub items : List BatchItemInput

abbrev pub ids : List BatchItemInput → List String
ids its = map (λ it. it.custom_id) its

module _ {F : Type 0} (json : Json F) (forward_body : ChatRequest F → Option String) where
  forwarded : Gathered → String → String → Option String → Checked Gathered
  forwarded g model custom_id none =
      denied (record { status = 500; code = "internal"; message = "could not encode item request" })
  forwarded g model custom_id (some canonical) = granted (record {
    model = model;
    items = g.items ++ record { custom_id = custom_id; body = canonical } ∷ [];
  })

  -- The item's model, against that of the items before it.
  same_model : ℕ → Gathered → String → ChatRequest F → Checked Gathered
  unfolding bad_request forwarded
  same_model i g custom_id req =
      let differs = bad_request (
        concat (at_index "requests" i ".body.model ") (
          concat (json.quoted req.model) (
            concat " differs from "
              (concat (json.quoted g.model) "; all items in a batch must use the same model")))) in
      if g.model == ""
      then forwarded g req.model custom_id (forward_body req)
      else if req.model == g.model
      then forwarded g g.model custom_id (forward_body req)
      else differs

  -- The error of an item's body names the item.
  item_request : ℕ → Checked (ChatRequest F) → Checked (ChatRequest F)
  item_request i (granted req) = granted req
  item_request i (denied e) =
      denied (record e { message = concat (at_index "requests" i ".body: ") e.message })

  item_body : ℕ → Gathered → String → Option String → Checked Gathered
  unfolding bad_request decode_chat_request same_model item_request
  item_body i g custom_id none = bad_request (at_index "requests" i ".body is required")
  item_body i g custom_id (some raw) =
      let checked =
        and_then (item_request i (decode_chat_request json raw)) (same_model i g custom_id) in
      if raw == "null" then bad_request (at_index "requests" i ".body is required") else checked

  with_custom_id : ℕ → Gathered → Map String String → String → Checked Gathered
  unfolding bad_request item_body
  with_custom_id i g entry custom_id =
      let checked = item_body i g custom_id (lookup "body" entry) in
      if json.is_blank custom_id
      then bad_request (at_index "requests" i ".custom_id is required")
      else if has_word custom_id (ids g.items)
      then bad_request (
          concat (at_index "requests" i ".custom_id ")
            (concat (json.quoted custom_id) " is not unique within the batch"))
      else checked

  -- One turn of the loop of decodeBatchCreate.
  gather_item : ℕ → Gathered → Map String String → Checked Gathered
  unfolding no_unknown entry_string with_custom_id
  gather_item i g entry =
      and_then
        (no_unknown json ("custom_id" ∷ "body" ∷ []) entry (λ key.
          concat "unsupported field " (concat (json.quoted key) (at_index " in requests" i ""))))
        (λ none_.
          and_then (entry_string json entry "custom_id" (at_index "requests" i ".custom_id"))
            (with_custom_id i g entry))

  -- The loop of decodeBatchCreate from its i-th entry.
  unfoldable pub gather : ℕ → Gathered → List (Map String String) → Checked Gathered
  unfolding gather_item
  gather i g [] = granted g
  gather i g (entry ∷ entries) = and_then (gather_item i g entry) (λ g'. gather (suc i) g' entries)

  counted_entries : List (Map String String) → Checked Gathered
  unfolding bad_request gather
  counted_entries [] = bad_request "requests must contain at least 1 item"
  counted_entries (entry ∷ entries) =
      let checked = gather 0 (record { model = ""; items = [] }) (entry ∷ entries) in
      if ltb max_batch_requests (length (entry ∷ entries))
      then bad_request (
          concat "requests must not contain more than "
            (concat (decimal max_batch_requests) " items"))
      else checked

  batch_entries : Option (List (Map String String)) → Checked Gathered
  unfolding bad_request counted_entries
  batch_entries none = bad_request "invalid type for field \"requests\""
  batch_entries (some entries) = counted_entries entries

  raw_requests : Option String → Checked Gathered
  unfolding bad_request batch_entries
  raw_requests none = bad_request "requests is required"
  raw_requests (some raw) =
      let checked = batch_entries (json.objects_of raw) in
      if raw == "null" then bad_request "requests is required" else checked

  -- The body is decoded as a whole; classifyDecodeError is the case of the two errors.
  batch_fields : Body → Checked Gathered
  unfolding bad_request no_unknown raw_requests
  batch_fields not_object = bad_request "request body must be a JSON object"
  batch_fields malformed = bad_request "request body is not valid JSON"
  batch_fields (object fields) =
      and_then
        (no_unknown json ("requests" ∷ []) fields
          (λ key. concat "unsupported field " (json.quoted key)))
        (λ none_. raw_requests (lookup "requests" fields))

  -- decodeBatchCreate.
  unfoldable pub decode_batch_create : String → Checked Gathered
  unfolding batch_fields
  decode_batch_create raw = batch_fields (json.unmarshal raw)
