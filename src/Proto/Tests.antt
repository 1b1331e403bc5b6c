-- ===== src/Proto/Tests.antt =====
-- Concrete runs of the protocol crate's codecs: handle.rs and codes.rs.
use herdr_mobile.Base.{
  List, [], arith, beq, leb→le, length, none, ok, refl, some, true, ℕ, ◌↔◌, ◌∷◌, ◌≡◌, ◌≤◌,
}
use herdr_mobile.Proto.Codes.{CloseCode, close_code, from_code, from_code_iff}
use herdr_mobile.Proto.Percent.{percent_encode, percent_decode, lossy_from}
use herdr_mobile.Proto.PairingUri.{
  build, parse, is_absolute_http_origin, pairing_uri_max_len, handle_bytes,
}
use herdr_mobile.Proto.PairingUri.Roundtrip.{parse-build}
use herdr_mobile.Proto.Samples.{
  base64, encode, origin, a_handle, a_uri, all_bytes, base64-Base64Laws, sample_words,
  length-sample_words, sample_words-IsUnambiguous,
}
use herdr_mobile.Proto.Phrase.{Phrase, generate, parse_canonical, display_form}
use herdr_mobile.Proto.Phrase.Parse.{parse_canonical-generate}
use herdr_mobile.Proto.PairingUri.Fields.{parse-ok}

parse-build_example : parse base64 (build base64 a_uri) ≡ ok a_uri
unfolding is_absolute_http_origin build encode percent_encode lossy_from beq
parse-build_example =
    parse-build base64 a_uri base64-Base64Laws (all_bytes a_handle refl) refl
      (all_bytes origin refl) refl refl refl (leb→le _ _ refl)

parse-ok_example :
    (length (build base64 a_uri) ≤ pairing_uri_max_len)
    × (is_absolute_http_origin origin ≡ true)
    × (length a_handle ≡ handle_bytes)
parse-ok_example = parse-ok base64 (build base64 a_uri) a_uri parse-build_example

-- The slice of two bytes after `%` ends within the euro sign.
percent_decode_panics : percent_decode (37 ∷ 97 ∷ 226 ∷ 130 ∷ 172 ∷ []) ≡ none
unfolding percent_decode
percent_decode_panics = refl

from_code_iff_example :
    (from_code 4002 ≡ some CloseCode.handle_taken) ↔ (close_code CloseCode.handle_taken ≡ 4002)
from_code_iff_example = from_code_iff 4002 CloseCode.handle_taken

abbrev six : List ℕ
six = 1 ∷ 0 ∷ 5 ∷ 0 ∷ 2 ∷ 1 ∷ []

parse_canonical-generate_example :
    (p : Phrase) × (generate sample_words (some six) ≡ ok p)
    × (parse_canonical p.canonical sample_words ≡ ok p)
    × (parse_canonical (display_form p) sample_words ≡ ok p)
parse_canonical-generate_example =
    parse_canonical-generate sample_words six sample_words-IsUnambiguous length-sample_words refl (
      rw length-sample_words (
        omega arith,
        (omega arith, (omega arith, (omega arith, (omega arith, (omega arith, tt))))),
      ))
