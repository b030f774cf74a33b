-- ===== src/Api/Batch/Valid.antt =====
-- What the validation of a batch lets through.
use mathlib.Core.Path.{subst}
use aegis_route.Base.{
  ℕ, suc, ◌+◌, ◌≤◌, ◌≡◌, refl, ap, ◌∙◌, true, false, ◌||◌, string_key, ◌==◌, ==_iff, String, ltb,
  if-both, Option, none, some, List, [], ◌∷◌, ◌++◌, All, All-append, length, length-append, arith,
}
use aegis_route.Base.Map.{Map, lookup}
use aegis_route.Api.Request.{
  ChatRequest, Checked, denied, granted, bad_request, Body, object, not_object, malformed, Json,
  has_word, decode_chat_request,
}
use aegis_route.Api.Request.Valid.{
  Grants, and_then-Grants, Any, Grants-Any, weaken, IsCanonical, decode_chat_request-IsCanonical,
}
use aegis_route.Api.Batch.{
  BatchItemInput, Gathered, ids, max_batch_requests, forwarded, same_model, item_request, item_body,
  with_custom_id, gather_item, gather, counted_entries, batch_entries, raw_requests, batch_fields,
  decode_batch_create,
}

abbrev pub IsDistinct : List String → Type 0
IsDistinct [] = Unit {0}
IsDistinct (x ∷ xs) = (has_word x xs ≡ false) × IsDistinct xs

has_word-append :
    (x y : String) (ys : List String) → has_word x (ys ++ y ∷ []) ≡ (has_word x ys || (y == x))
has_word-append x y [] = ground arith
has_word-append x y (z ∷ ys) = ground (arith, has_word-append x y ys)

IsDistinct-append :
    (y : String) (xs : List String)
    → has_word y xs ≡ false
    → IsDistinct xs
    → IsDistinct (xs ++ y ∷ [])
IsDistinct-append y [] new distinct = (refl, tt)
IsDistinct-append y (x ∷ xs) new (first, rest) = (
  ground (arith, has_word-append x y xs, new, first, ==_iff x y, ==_iff y x),
  IsDistinct-append y xs (ground (arith, new)) rest,
)

ids-append :
    (its : List BatchItemInput) (it : BatchItemInput)
    → ids (its ++ it ∷ []) ≡ ids its ++ it.custom_id ∷ []
ids-append [] it = refl
ids-append (x ∷ its) it = ap (λ l. x.custom_id ∷ l) (ids-append its it)

module _ {F : Type 0} (json : Json F) (forward_body : ChatRequest F → Option String) where
  -- An item's body is what is forwarded of a canonical request for the model, and its id is not blank.
  abbrev pub IsItem : String → BatchItemInput → Type 0
  IsItem model it =
      (json.is_blank it.custom_id ≡ false)
      × ((req : ChatRequest F) × IsCanonical json req
          × (req.model ≡ model)
          × (forward_body req ≡ some it.body))

  -- The items so far: all of the shared model, with distinct ids; and the model is set with the first.
  abbrev IsGathered : ℕ → Gathered → Type 0
  IsGathered n g =
      All (IsItem g.model) g.items
      × IsDistinct (ids g.items)
      × (((g.model == "") ≡ true) → g.items ≡ [])
      × (length g.items ≡ n)

  module _ (blank : json.is_blank "" ≡ true) where
    forwarded-IsGathered :
        (n : ℕ) (g : Gathered) (model custom_id : String) (req : ChatRequest F)
        → json.is_blank custom_id ≡ false
        → has_word custom_id (ids g.items) ≡ false
        → All (IsItem model) g.items
        → IsDistinct (ids g.items)
        → length g.items ≡ n
        → IsCanonical json req
        → req.model ≡ model
        → (o : Option String) → forward_body req ≡ o
        → Grants (IsGathered (suc n)) (forwarded json forward_body g model custom_id o)
    unfolding forwarded
    forwarded-IsGathered n g model custom_id req named new its distinct count canonical is none
          body =
        tt
    forwarded-IsGathered n g model custom_id req named new its distinct count canonical is
          (some text) body =
        (
          All-append (IsItem model) g.items (record { custom_id = custom_id; body = text } ∷ []) its
              ((named, (req, canonical, is, body)), tt),
          rw (ids-append g.items (record { custom_id = custom_id; body = text }))
              (IsDistinct-append custom_id (ids g.items) new distinct),
          λ unset. absurd (set unset),
          rw (length-append g.items (record { custom_id = custom_id; body = text } ∷ []))
              (omega (arith, count)),
        )
      where
        set : ((model == "") ≡ true) → ⊥
        set unset =
            let e = is ∙ (==_iff model "").0 unset in
            ground (arith, canonical.0, ap json.is_blank e, blank)

    same_model-IsGathered :
        (n i : ℕ) (g : Gathered) (custom_id : String) (req : ChatRequest F)
        → json.is_blank custom_id ≡ false
        → has_word custom_id (ids g.items) ≡ false
        → IsGathered n g
        → IsCanonical json req
        → Grants (IsGathered (suc n)) (same_model json forward_body i g custom_id req)
    unfolding same_model bad_request
    same_model-IsGathered n i g custom_id req named new (its, distinct, unset, count) canonical =
        let G = Grants (IsGathered (suc n)) in
        if-both G (g.model == "") _ _
          (λ first.
            forwarded-IsGathered n g req.model custom_id req named new (rw (unset first) tt)
              distinct count canonical refl (forward_body req) refl)
          (λ later.
            if-both G (req.model == g.model) _ _
              (λ same.
                forwarded-IsGathered n g g.model custom_id req named new its distinct count
                  canonical ((==_iff req.model g.model).0 same) (forward_body req) refl)
              (λ differs. tt))

    item_request-IsCanonical :
        (i : ℕ) (raw : String) (c : Checked (ChatRequest F))
        → decode_chat_request json raw ≡ c
        → Grants (IsCanonical json) (item_request json forward_body i c)
    unfolding item_request
    item_request-IsCanonical i raw (denied e) same = tt
    item_request-IsCanonical i raw (granted req) same =
        (decode_chat_request-IsCanonical json raw req same).1

    item_body-IsGathered :
        (n i : ℕ) (g : Gathered) (custom_id : String) (o : Option String)
        → json.is_blank custom_id ≡ false
        → has_word custom_id (ids g.items) ≡ false
        → IsGathered n g
        → Grants (IsGathered (suc n)) (item_body json forward_body i g custom_id o)
    unfolding item_body bad_request
    item_body-IsGathered n i g custom_id none named new so_far = tt
    item_body-IsGathered n i g custom_id (some raw) named new so_far =
        if-both (Grants (IsGathered (suc n))) (raw == "null") _ _ (λ null. tt)
          (λ full.
            and_then-Grants (IsCanonical json) (IsGathered (suc n)) _ _
              (item_request-IsCanonical i raw (decode_chat_request json raw) refl)
              (λ req canonical.
                same_model-IsGathered n i g custom_id req named new so_far canonical))

    gather_item-IsGathered :
        (n i : ℕ) (g : Gathered) (entry : Map String String)
        → IsGathered n g
        → Grants (IsGathered (suc n)) (gather_item json forward_body i g entry)
    unfolding gather_item with_custom_id bad_request
    gather_item-IsGathered n i g entry so_far =
        let G = Grants (IsGathered (suc n)) in
        and_then-Grants Any (IsGathered (suc n)) _ _ (Grants-Any _) (λ u v.
          and_then-Grants Any (IsGathered (suc n)) _ _ (Grants-Any _) (λ custom_id w.
            if-both G (json.is_blank custom_id) _ _ (λ empty. tt)
              (λ named.
                if-both G (has_word custom_id (ids g.items)) _ _ (λ twice. tt)
                  (λ new.
                    item_body-IsGathered n i g custom_id (lookup "body" entry) named new so_far))))

    gather-IsGathered :
        (n i : ℕ) (g : Gathered) (entries : List (Map String String))
        → IsGathered n g
        → Grants (IsGathered (n + length entries)) (gather json forward_body i g entries)
    unfolding gather
    gather-IsGathered n i g [] so_far = subst (λ m. IsGathered m g) (omega arith) so_far
    gather-IsGathered n i g (entry ∷ entries) so_far =
        subst (λ m. Grants (IsGathered m) (gather json forward_body i g (entry ∷ entries)))
          (omega arith)
          (and_then-Grants (IsGathered (suc n)) (IsGathered (suc n + length entries)) _ _
            (gather_item-IsGathered n i g entry so_far)
            (λ g' more. gather-IsGathered (suc n) (suc i) g' entries more))

  -- A batch that may be accepted: 1 to 100 items, with distinct ids that are not blank, and every body is
  -- what is forwarded of a canonical completion request for the one model.
  abbrev pub IsBatch : Gathered → Type 0
  IsBatch g =
      All (IsItem g.model) g.items
      × IsDistinct (ids g.items)
      × (1 ≤ length g.items)
      × (length g.items ≤ 100)

  module _ (blank : json.is_blank "" ≡ true) where
    counted_entries-IsBatch :
        (entries : List (Map String String))
        → Grants IsBatch (counted_entries json forward_body entries)
    unfolding counted_entries bad_request
    counted_entries-IsBatch [] = tt
    counted_entries-IsBatch (entry ∷ entries) =
        if-both (Grants IsBatch) (ltb max_batch_requests (length (entry ∷ entries))) _ _
          (λ many. tt)
          (λ few.
            weaken {P = IsGathered (0 + length (entry ∷ entries))} {Q = IsBatch}
              (gather json forward_body 0 (record { model = ""; items = [] }) (entry ∷ entries))
              (λ g (its, distinct, unset, count).
                (its, distinct, omega (arith, count), ground (arith, count, few)))
              (gather-IsGathered blank 0 0 (record { model = ""; items = [] }) (entry ∷ entries)
                (tt, tt, (λ unset. refl), refl)))

    batch_fields-IsBatch : (body : Body) → Grants IsBatch (batch_fields json forward_body body)
    unfolding batch_fields raw_requests batch_entries bad_request
    batch_fields-IsBatch not_object = tt
    batch_fields-IsBatch malformed = tt
    batch_fields-IsBatch (object fields) =
        and_then-Grants Any IsBatch _ _ (Grants-Any _) (λ u v. requests (lookup "requests" fields))
      where
        entries :
            (o : Option (List (Map String String)))
            → Grants IsBatch (batch_entries json forward_body o)
        entries none = tt
        entries (some found) = counted_entries-IsBatch found

        requests : (o : Option String) → Grants IsBatch (raw_requests json forward_body o)
        requests none = tt
        requests (some raw) =
            if-both (Grants IsBatch) (raw == "null") _ _ (λ null. tt)
              (λ full. entries (json.objects_of raw))

    -- Validation lets through only batches of 1 to 100 items, with distinct ids that are not blank, each
    -- body what is forwarded of a canonical completion request, all for one model. It relies on the
    -- empty string being blank.
    pub decode_batch_create-IsBatch :
        (raw : String) (g : Gathered)
        → decode_batch_create json forward_body raw ≡ granted g
        → IsBatch g
    unfolding decode_batch_create
    decode_batch_create-IsBatch raw g same =
        subst (Grants IsBatch) same (batch_fields-IsBatch (json.unmarshal raw))
