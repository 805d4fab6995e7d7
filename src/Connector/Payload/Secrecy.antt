-- ===== src/Connector/Payload/Secrecy.antt =====
-- An accepted result has no secret-shaped key in any object of its payload that objects alone hold.
use minigrc.Connector.Manifest.{has_items, ConnectorManifest}
use minigrc.Prelude.{
  ◌≤◌, ◌↔◌, leb, leb→le, one_of, codes, length, contract_error, ok, require, require-eq-ok, true,
  not, String, List, [], ◌∷◌, ◌++◌, false, ◌≡◌, refl, inl, inr, Bool-cases, arith,
}
use minigrc.Connector.Payload.{
  validate_result, max_normalized_payload_chars, evidence_statuses, ConnectorResult, no_fields,
  array, text, number, boolean, null, string_append, Fields, field, Json, object,
  find_secret_shaped_keys, find_in_value, is_secret_shaped,
}

-- a key of an object, or of an object that is the value of one of its keys, at any depth
pub data Reaches : String → Fields → Type 0 where
  here : {key : String} {value : Json} {fields : Fields} → Reaches key (field key value fields)
  below :
      {key key' : String} {inner fields : Fields}
      → Reaches key inner
      → Reaches key (field key' (object inner) fields)
  after :
      {key key' : String} {value : Json} {fields : Fields}
      → Reaches key fields
      → Reaches key (field key' value fields)

append-empty : (xs ys : List String) → xs ++ ys ≡ [] → (xs ≡ []) × (ys ≡ [])
append-empty [] ys h = (refl, h)
append-empty (x ∷ xs) ys h = cc

module _ (key : String) (value : Json) (fields : Fields) (prefix : String) where
  -- a report of nothing is one for the key, for the value and for the other keys
  empty_report :
      find_secret_shaped_keys (field key value fields) prefix ≡ []
      → (is_secret_shaped key ≡ false)
        × (find_in_value value (string_append (string_append prefix key) ".") ≡ [])
        × (find_secret_shaped_keys fields prefix ≡ [])
  unfolding find_secret_shaped_keys
  empty_report h = elim (Bool-cases (is_secret_shaped key)) [
    | inl p ↦ absurd (ground (arith, h, p))
    | inr p ↦
        let rest =
          append-empty (find_in_value value (string_append (string_append prefix key) ".")) _
            (ground (arith, h, p)) in
        (p, rest.0, rest.1)
  ]

reached-safe :
    (fields : Fields) (prefix : String)
    → find_secret_shaped_keys fields prefix ≡ []
    → {key : String} → Reaches key fields
    → is_secret_shaped key ≡ false
unfolding find_secret_shaped_keys
reached-safe no_fields prefix h r = elim r [ ]
reached-safe (field key value fields) prefix h here = (empty_report key value fields prefix h).0
reached-safe (field key' (object inner) fields) prefix h (below r) =
    reached-safe inner (string_append (string_append prefix key') ".")
      (empty_report key' (object inner) fields prefix h).1 r
reached-safe (field key' value fields) prefix h (after r) =
    reached-safe fields prefix (empty_report key' value fields prefix h).2 r

unfoldable pub IsSafe : Fields → Type 0
IsSafe fields = (key : String) → Reaches key fields → is_secret_shaped key ≡ false

mutual
  unfolding find_secret_shaped_keys IsSafe

  safe-reported :
      (fields : Fields) (prefix : String)
      → IsSafe fields
      → find_secret_shaped_keys fields prefix ≡ []
  safe-reported no_fields prefix h = refl
  safe-reported (field key value fields) prefix h =
      rw
        (
          h key here,
          safe_value-reported key value fields (string_append (string_append prefix key) ".") h,
        )
        (safe-reported fields prefix (λ k r. h k (after r)))

  safe_value-reported :
      (key : String) (value : Json) (fields : Fields) (prefix : String)
      → IsSafe (field key value fields)
      → find_in_value value prefix ≡ []
  safe_value-reported key null rest prefix h = refl
  safe_value-reported key (boolean b) rest prefix h = refl
  safe_value-reported key (number n) rest prefix h = refl
  safe_value-reported key (text s) rest prefix h = refl
  safe_value-reported key (array items) rest prefix h = refl
  safe_value-reported key (object inner) rest prefix h =
      safe-reported inner prefix (λ k r. h k (below r))

no_items_left : (xs : List String) → require (not (has_items xs)) contract_error ≡ ok tt → xs ≡ []
no_items_left [] h = refl
no_items_left (x ∷ xs) h = cc

module _ (dumps : Fields → String) where
  abbrev pub Conforms : ConnectorResult → ConnectorManifest → Type 0
  Conforms r m =
      (one_of m.capabilities r.capability ≡ true)
      × (one_of evidence_statuses r.status ≡ true)
      × (length (codes (dumps r.normalized_payload)) ≤ max_normalized_payload_chars)
      × IsSafe r.normalized_payload

  -- A result is accepted exactly if its manifest declares its capability, its status is one of the
  -- four, its payload's JSON has at most 20000 characters, and no key of the payload, or of an object
  -- that is reached through objects alone, ends in one of the secret terms.
  pub validate_result-Conforms :
      (r : ConnectorResult) (m : ConnectorManifest)
      → (validate_result dumps r m ≡ ok tt) ↔ Conforms r m
  unfolding validate_result IsSafe
  validate_result-Conforms r m = (accepted_conforms, conforming_is_accepted)
    where
      accepted_conforms : validate_result dumps r m ≡ ok tt → Conforms r m
      accepted_conforms h =
          let (a, h) = require-eq-ok (one_of m.capabilities r.capability) contract_error _ h in
          let (b, h) = require-eq-ok (one_of evidence_statuses r.status) contract_error _ h in
          let (c, h) =
            require-eq-ok
              (leb (length (codes (dumps r.normalized_payload))) max_normalized_payload_chars)
              contract_error _ h in
          let none_found = no_items_left (find_secret_shaped_keys r.normalized_payload "") h in
          (
            a,
            b,
            leb→le (length (codes (dumps r.normalized_payload))) max_normalized_payload_chars c,
            λ key reached. reached-safe r.normalized_payload "" none_found reached,
          )

      conforming_is_accepted : Conforms r m → validate_result dumps r m ≡ ok tt
      conforming_is_accepted h =
          let small : leb (length (codes (dumps r.normalized_payload))) max_normalized_payload_chars
              ≡ true =
            ground (arith, h.2) in
          rw (h.0, h.1, small, safe-reported r.normalized_payload "" h.3) refl
