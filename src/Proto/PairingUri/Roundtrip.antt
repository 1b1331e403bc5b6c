-- ===== src/Proto/PairingUri/Roundtrip.antt =====
-- `PairingUri::parse` after `PairingUri::build`, of handle.rs.
use herdr_mobile.Base.{
  All, Bytes, [], beq, codes, false, length, le→leb, ok, refl, some, true, ◌++◌, ◌>>=◌, ◌∷◌, ◌≡◌,
  ◌≤◌,
}
use herdr_mobile.Base.Strings.{
  strip_prefix, split_once, split, contains, split-append, split_single,
}
use herdr_mobile.Proto.Percent.{percent_encode, percent_decode, from_utf8_lossy}
use herdr_mobile.Proto.Percent.Roundtrip.{
  IsByte, percent_decode-percent_encode, contains-percent_encode,
}
use herdr_mobile.Proto.PairingUri.{
  Base64, encode_handle, handle_from_str, PairingUri, build, no_fields, add_field, add_fields,
  parse_query, is_absolute_http_origin, check_fields, parse, pairing_uri_max_len, handle_len,
  handle_bytes,
}

-- The documented behaviour of the base64 engine on 16 bytes.
pub record Base64Laws (b64 : Base64) : Type 0 where
  pub decode-encode :
      (h : Bytes) → All IsByte h → length h ≡ handle_bytes → b64.decode (b64.encode h) ≡ some h
  pub length-encode : (h : Bytes) → length h ≡ handle_bytes → length (b64.encode h) ≡ handle_len
  pub alphabet : (h : Bytes) → All IsByte h → contains 38 (b64.encode h) ≡ false

handle_from_str-encode_handle :
    (b64 : Base64) (laws : Base64Laws b64) (h : Bytes)
    → All IsByte h
    → length h ≡ handle_bytes
    → handle_from_str b64 (encode_handle b64 h) ≡ ok h
unfolding handle_from_str encode_handle
handle_from_str-encode_handle b64 laws h bytes size =
    rw (laws.length-encode h size, laws.decode-encode h bytes size, size) refl

contains-encode_handle :
    (b64 : Base64) (laws : Base64Laws b64) (h : Bytes)
    → All IsByte h
    → contains 38 (encode_handle b64 h) ≡ false
unfolding encode_handle
contains-encode_handle b64 laws h bytes = laws.alphabet h bytes

-- A pair of the query, its value as the field's rule reads it.
module _ (b64 : Base64) (uri : PairingUri) where
  abbrev query_of : Bytes
  query_of =
      codes "v=1"
      ++ 38
        ∷ ((codes "r=" ++ percent_encode uri.relay_origin)
            ++ 38
              ∷ ((codes "h=" ++ encode_handle b64 uri.handle) ++ 38 ∷ (codes "p=" ++ uri.phrase)))

  split-query_of :
      contains 38 (percent_encode uri.relay_origin) ≡ false
      → contains 38 (encode_handle b64 uri.handle) ≡ false
      → contains 38 uri.phrase ≡ false
      → split 38 query_of
        ≡ codes "v=1"
          ∷ (codes "r=" ++ percent_encode uri.relay_origin)
          ∷ (codes "h=" ++ encode_handle b64 uri.handle)
          ∷ (codes "p=" ++ uri.phrase)
          ∷ []
  split-query_of r h p =
      rw
        (
          split-append 38 (codes "v=1") _ refl,
          split-append 38 (codes "r=" ++ percent_encode uri.relay_origin) _ r,
          split-append 38 (codes "h=" ++ encode_handle b64 uri.handle) _ h,
          split_single 38 (codes "p=" ++ uri.phrase) p,
        )
        refl

  add_fields_lem :
      percent_decode (percent_encode uri.relay_origin) ≡ some uri.relay_origin
      → add_fields no_fields (
          codes "v=1"
          ∷ (codes "r=" ++ percent_encode uri.relay_origin)
          ∷ (codes "h=" ++ encode_handle b64 uri.handle)
          ∷ (codes "p=" ++ uri.phrase)
          ∷ [])
        ≡ ok (record {
          version = some (codes "1");
          relay_origin = some uri.relay_origin;
          handle = some (encode_handle b64 uri.handle);
          phrase = some uri.phrase;
        })
  unfolding add_fields add_field split_once beq
  add_fields_lem e = rw e refl

  check_fields_lem :
      Base64Laws b64
      → All IsByte uri.handle
      → length uri.handle ≡ handle_bytes
      → is_absolute_http_origin uri.relay_origin ≡ true
      → check_fields b64 (record {
        version = some (codes "1");
        relay_origin = some uri.relay_origin;
        handle = some (encode_handle b64 uri.handle);
        phrase = some uri.phrase;
      })
        ≡ ok uri
  unfolding check_fields beq
  check_fields_lem laws id_bytes size origin =
      rw (origin, handle_from_str-encode_handle b64 laws uri.handle id_bytes size) refl

  parse_lem :
      length (build b64 uri) ≤ pairing_uri_max_len
      → parse b64 (build b64 uri) ≡ (parse_query query_of >>= λ fields. check_fields b64 fields)
  unfolding parse build strip_prefix split_once beq
  parse_lem short = rw (le→leb _ _ short) refl

-- Parsing what was built gives the pairing data back: for an origin that the validator accepts and
-- that is UTF-8, a handle of 16 bytes, a phrase without `&`, and a URI of at most 512 bytes, with a
-- base64 engine that decodes what it encoded into 22 characters of its alphabet.
pub parse-build :
    (b64 : Base64) (uri : PairingUri)
    → Base64Laws b64
    → All IsByte uri.handle
    → length uri.handle ≡ handle_bytes
    → All IsByte uri.relay_origin
    → from_utf8_lossy uri.relay_origin ≡ uri.relay_origin
    → is_absolute_http_origin uri.relay_origin ≡ true
    → contains 38 uri.phrase ≡ false
    → length (build b64 uri) ≤ pairing_uri_max_len
    → parse b64 (build b64 uri) ≡ ok uri
unfolding parse_query
parse-build b64 uri laws id_bytes size bytes utf8 origin phrase short =
    rw (parse_lem b64 uri short, parse_query)
      (rw
        (
          split-query_of b64 uri (contains-percent_encode 38 uri.relay_origin bytes refl refl)
              (contains-encode_handle b64 laws uri.handle id_bytes) phrase,
          add_fields_lem b64 uri (percent_decode-percent_encode uri.relay_origin bytes utf8),
          check_fields_lem b64 uri laws id_bytes size origin,
        )
        refl)
