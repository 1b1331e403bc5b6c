-- ===== src/Proto/PairingUri.antt =====
-- The routing handle and the pairing URI: crates/herdr-relay-proto/src/handle.rs. The base64 engine
-- is an argument.
use Prim.Native.String.{String}
use herdr_mobile.Base.{
  Bool, Bytes, List, Option, Result, [], any, beq, codes, err, false, guard, if◌then◌else◌,
  is_empty, leb, length, map_err, none, not, ok, ok_or, some, ℕ, ◌&&◌, ◌++◌, ◌==◌, ◌>>=◌, ◌>>◌,
  ◌||◌, ◌∷◌,
}
use herdr_mobile.Base.Strings.{strip_prefix, split_once, split_once_str, split, contains}
use herdr_mobile.Proto.Percent.{percent_encode, percent_decode}
pub mod Roundtrip
pub mod Fields

abbrev pub handle_bytes : ℕ
handle_bytes = 16

abbrev pub handle_len : ℕ
handle_len = 22

abbrev pub pairing_uri_scheme : Bytes
pairing_uri_scheme = codes "herdr-remote"

abbrev pub pairing_uri_max_len : ℕ
pairing_uri_max_len = 512

-- `URL_SAFE_NO_PAD` of the crate base64.
pub record Base64 : Type 0 where
  pub encode : Bytes → Bytes
  pub decode : Bytes → Option Bytes

pub data HandleError : Type 0 where
  wrong_length decode_failed : HandleError

-- A handle is its 16 bytes.
unfoldable pub encode_handle : Base64 → Bytes → Bytes
encode_handle b64 handle = b64.encode handle

unfoldable pub handle_from_str : Base64 → Bytes → Result HandleError Bytes
handle_from_str b64 candidate =
    if not (length candidate == handle_len)
    then err wrong_length
    else ok_or (b64.decode candidate) decode_failed >>= λ decoded.
        if length decoded == handle_bytes then ok decoded else err wrong_length

pub record PairingUri : Type 0 where
  pub relay_origin : Bytes
  pub handle : Bytes
  pub phrase : Bytes

pub data PairingUriError : Type 0 where
  scheme path version field_missing field_repeated too_long relay_origin_invalid : PairingUriError
  handle_malformed : HandleError → PairingUriError

unfoldable pub code : PairingUriError → String
code scheme = "pair_uri_scheme"
code path = "pair_uri_path"
code version = "pair_uri_version"
code field_missing = "pair_uri_field_missing"
code field_repeated = "pair_uri_field_repeated"
code too_long = "pair_uri_too_long"
code relay_origin_invalid = "relay_origin_invalid"
code (handle_malformed e) = "handle_malformed"

unfoldable pub build : Base64 → PairingUri → Bytes
unfolding encode_handle
build b64 uri =
    pairing_uri_scheme
    ++ (codes "://pair?v=1&r="
        ++ (percent_encode uri.relay_origin
            ++ (codes "&h=" ++ (encode_handle b64 uri.handle ++ (codes "&p=" ++ uri.phrase)))))

pub record QueryFields : Type 0 where
  pub version : Option Bytes
  pub relay_origin : Option Bytes
  pub handle : Option Bytes
  pub phrase : Option Bytes

abbrev pub no_fields : QueryFields
no_fields = record { version = none; relay_origin = none; handle = none; phrase = none }

-- An error of the parser, or the panic of `percent_decode`.
pub data Failure : Type 0 where
  invalid : PairingUriError → Failure
  panicked : Failure

-- The slot is free, and gets the value.
abbrev fill : Option Bytes → QueryFields → Result Failure QueryFields
fill none filled = ok filled
fill (some old) filled = err (invalid field_repeated)

abbrev fill_origin : Option Bytes → QueryFields → Option Bytes → Result Failure QueryFields
fill_origin none fields none = err panicked
fill_origin none fields (some origin) = ok (record fields { relay_origin = some origin })
fill_origin (some old) fields decoded = err (invalid field_repeated)

-- One `key=value` of the query.
unfoldable pub add_field : QueryFields → Bytes → Bytes → Result Failure QueryFields
add_field fields key value =
    if beq key (codes "v")
    then fill fields.version (record fields { version = some value })
    else if beq key (codes "r")
    then fill_origin fields.relay_origin fields (percent_decode value)
    else if beq key (codes "h")
    then fill fields.handle (record fields { handle = some value })
    else if beq key (codes "p")
    then fill fields.phrase (record fields { phrase = some value })
    else ok fields

abbrev add_pair : QueryFields → Option (Bytes × Bytes) → Result Failure QueryFields
add_pair fields none = err (invalid field_missing)
add_pair fields (some (key, value)) = add_field fields key value

-- The loop over the pairs.
unfoldable pub add_fields : QueryFields → List Bytes → Result Failure QueryFields
unfolding add_field split_once
add_fields fields [] = ok fields
add_fields fields (pair ∷ pairs) =
    add_pair fields (split_once 61 pair) >>= λ fields'. add_fields fields' pairs

unfoldable pub parse_query : Bytes → Result Failure QueryFields
parse_query query = add_fields no_fields (split 38 query)

abbrev is_origin : Option (Bytes × Bytes) → Bool
is_origin none = false
is_origin (some (before, rest)) =
    (beq before (codes "http") || beq before (codes "https"))
    && (not (is_empty rest) && not (any (λ c. c == 47 || (c == 63 || (c == 35 || c == 64))) rest))

unfoldable pub is_absolute_http_origin : Bytes → Bool
unfolding split_once_str
is_absolute_http_origin origin = is_origin (split_once_str (codes "://") origin)

abbrev is_version_1 : Option Bytes → Bool
is_version_1 none = false
is_version_1 (some v) = beq v (codes "1")

-- What follows the query's parsing.
unfoldable pub check_fields : Base64 → QueryFields → Result Failure PairingUri
check_fields b64 fields =
    guard (is_version_1 fields.version) (invalid version)
    >> (ok_or fields.relay_origin (invalid field_missing) >>= λ relay_origin.
        ok_or fields.handle (invalid field_missing) >>= λ handle_text.
        ok_or fields.phrase (invalid field_missing) >>= λ phrase.
        guard (is_absolute_http_origin relay_origin) (invalid relay_origin_invalid)
        >> (map_err (λ e. invalid (handle_malformed e)) (handle_from_str b64 handle_text)
            >>= λ handle.
                ok (record { relay_origin = relay_origin; handle = handle; phrase = phrase })))

abbrev pub and_then_strip : Option Bytes → Bytes → Option Bytes
and_then_strip none prefix = none
and_then_strip (some rest) prefix = strip_prefix prefix rest

unfoldable pub parse : Base64 → Bytes → Result Failure PairingUri
unfolding strip_prefix split_once
parse b64 uri =
    guard (leb (length uri) pairing_uri_max_len) (invalid too_long)
    >> (ok_or (and_then_strip (strip_prefix pairing_uri_scheme uri) (codes "://")) (invalid scheme)
        >>= λ rest. ok_or (split_once 63 rest) (invalid field_missing) >>= λ (path_text, query).
            guard (beq path_text (codes "pair")) (invalid path)
            >> (parse_query query >>= λ fields. check_fields b64 fields))
