-- ===== src/Proto/PairingUri/Fields.antt =====
-- What `PairingUri::parse` of handle.rs guarantees of its result.
use herdr_mobile.Base.{
  Bytes, Option-cases, Result-cases, arith, codes, inl, inr, length, ok, some, true, ◌≡◌, ◌≤◌,
}
use herdr_mobile.Base.Strings.{strip_prefix, split_once}
use herdr_mobile.Proto.PairingUri.{
  and_then_strip, pairing_uri_scheme, Base64, handle_from_str, PairingUri, QueryFields, parse_query,
  is_absolute_http_origin, check_fields, parse, pairing_uri_max_len, handle_bytes, handle_len,
}

-- A handle that is read has 16 bytes and came from 22 characters.
length-handle_from_str :
    (b64 : Base64) (candidate handle : Bytes)
    → handle_from_str b64 candidate ≡ ok handle
    → (length handle ≡ handle_bytes) × (length candidate ≡ handle_len)
unfolding handle_from_str
length-handle_from_str b64 candidate handle h = ground (arith, h)

check_fields_sound :
    (b64 : Base64) (fields : QueryFields) (uri : PairingUri)
    → check_fields b64 fields ≡ ok uri
    → (is_absolute_http_origin uri.relay_origin ≡ true)
      × (length uri.handle ≡ handle_bytes)
      × (fields.relay_origin ≡ some uri.relay_origin)
      × (fields.phrase ≡ some uri.phrase)
unfolding check_fields
check_fields_sound b64 fields uri h = elim (Option-cases fields.relay_origin) [
  | inl e ↦ ground (arith, h, e)
  | inr (r, e) ↦ elim (Option-cases fields.handle) [
    | inl e' ↦ ground (arith, h, e, e')
    | inr (t, e') ↦ ground (arith, h, e, e', length-handle_from_str b64 t uri.handle)
  ]
]

-- Whatever text is parsed, a pairing URI that is accepted is at most 512 bytes long, its origin
-- passes the validator, and its handle has 16 bytes.
pub parse-ok :
    (b64 : Base64) (text : Bytes) (uri : PairingUri)
    → parse b64 text ≡ ok uri
    → (length text ≤ pairing_uri_max_len)
      × (is_absolute_http_origin uri.relay_origin ≡ true)
      × (length uri.handle ≡ handle_bytes)
unfolding parse
parse-ok b64 text uri h =
    let stripped = and_then_strip (strip_prefix pairing_uri_scheme text) (codes "://") in
    elim (Option-cases stripped) [
      | inl e ↦ ground (arith, h, e)
      | inr (rest, e) ↦ elim (Option-cases (split_once 63 rest)) [
        | inl e' ↦ ground (arith, h, e, e')
        | inr ((before, query), e') ↦ elim (Result-cases (parse_query query)) [
          | inr (x, e2) ↦ ground (arith, h, e, e', e2)
          | inl (fields, e2) ↦ ground (arith, h, e, e', e2, check_fields_sound b64 fields uri)
        ]
      ]
    ]
