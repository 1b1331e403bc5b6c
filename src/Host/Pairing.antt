-- ===== src/Host/Pairing.antt =====
-- The pairing session: crates/herdr-relay/src/pairing.rs. The crates qrcode, base64 and blake2, the
-- bytes that the random source yields and the readings of the clock are arguments. The words of the
-- list are ASCII, so that a phrase's characters are its bytes.
use herdr_mobile.Base.{
  Bool, Bytes, List, Option, Result, [], err, false, if◌then◌else◌, is_some, leb, length, ltb,
  map_err, none, not, ok, ok_or, secs, some, suc, true, zero, ℕ, ◌+◌, ◌-◌, ◌>>=◌, ◌∷◌,
}
use herdr_mobile.Proto.PairingUri.{Base64, PairingUri, build, pairing_uri_max_len}
use herdr_mobile.Proto.Phrase.{Phrase, PhraseError, generate, display_form}
pub mod Qr
pub mod Issued
pub mod Ledger
mod Tests

abbrev pub phrase_lifetime : ℕ
phrase_lifetime = secs 600

abbrev pub max_attempts : ℕ
max_attempts = 3

pub data QrError : Type 0 where
  data_too_long : QrError
  crate_error : ℕ → QrError

pub data PairingError : Type 0 where
  wordlist : PhraseError → PairingError
  handle_error : PairingError
  uri_too_long : ℕ → PairingError
  qr_error : QrError → PairingError

-- The parts of the crate qrcode that `encode_qr` calls, at the correction level `M`: a code is its
-- width and, module by module, whether `to_colors` says other than `Color::Light`.
pub record QrCrate : Type 1 where
  pub Bits : Type 0
  pub new_bits : ℕ → Bits
  pub push_byte_data : Bits → Bytes → Option Bits
  pub push_terminator : Bits → Option Bits
  pub with_bits : Bits → Result QrError (ℕ × List Bool)

pub record QrGrid : Type 0 where
  pub width : ℕ
  pub modules : List Bool

-- The bits of one version, when the payload and its terminator fit.
unfoldable pub bits_of : (qr : QrCrate) → Bytes → ℕ → Option qr.Bits
bits_of qr payload version_number = elim (qr.push_byte_data (qr.new_bits version_number) payload) [
  | none ↦ none
  | some bits ↦ qr.push_terminator bits
]

abbrev pub to_grid : ℕ × List Bool → QrGrid
to_grid (width, modules) = record { width = width; modules = modules }

-- The loop over the versions.
unfoldable pub first_version : QrCrate → Bytes → List ℕ → Result QrError QrGrid
first_version qr payload [] = err data_too_long
first_version qr payload (v ∷ versions) = elim (bits_of qr payload v) [
  | none ↦ first_version qr payload versions
  | some bits ↦ qr.with_bits bits >>= λ code. ok (to_grid code)
]

-- `from..=to`, for `count` numbers.
unfoldable pub count_from : ℕ → ℕ → List ℕ
count_from from zero = []
count_from from (suc count) = from ∷ count_from (suc from) count

unfoldable pub encode_qr : QrCrate → Bytes → Result QrError QrGrid
encode_qr qr uri = first_version qr uri (count_from 1 40)

unfoldable pub qr_from_uri : QrCrate → Bytes → Result PairingError QrGrid
qr_from_uri qr uri =
    if ltb pairing_uri_max_len (length uri)
    then err (uri_too_long (length uri))
    else map_err qr_error (encode_qr qr uri)

pub record LivePhrase : Type 0 where
  pub handle : Bytes
  pub phrase : Phrase
  pub generated_at : ℕ
  pub failed_attempts : ℕ
  pub uri : Bytes
  pub qr : QrGrid

-- What one generation draws: the bytes of the handle and the indices of the words, where the random
-- source does not fail.
pub record Draws : Type 0 where
  pub handle_bytes : Option Bytes
  pub word_indices : Option (List ℕ)

pub record Crates : Type 1 where
  pub b64 : Base64
  pub qrcode : QrCrate
  pub blake2s : Bytes → Bytes

unfoldable pub generate_live :
    Crates → Bytes → List Bytes → Draws → ℕ → Result PairingError LivePhrase
generate_live crates relay_origin words draws now =
    ok_or draws.handle_bytes handle_error >>= λ handle.
    map_err wordlist (generate words draws.word_indices) >>= λ phrase.
    let uri =
      build crates.b64
        (record { relay_origin = relay_origin; handle = handle; phrase = phrase.canonical }) in
    if ltb pairing_uri_max_len (length uri)
    then err (uri_too_long (length uri))
    else map_err qr_error (encode_qr crates.qrcode uri) >>= λ qr. ok (record {
      handle = handle;
      phrase = phrase;
      generated_at = now;
      failed_attempts = 0;
      uri = uri;
      qr = qr;
    })

pub data SessionState : Type 0 where
  live_state : LivePhrase → SessionState
  expired spent enrolled : SessionState

pub record PairingSession : Type 0 where
  pub relay_origin : Bytes
  pub state : SessionState

unfoldable pub new : Crates → Bytes → List Bytes → Draws → ℕ → Result PairingError PairingSession
new crates relay_origin words draws now =
    generate_live crates relay_origin words draws now >>= λ live.
    ok (record { relay_origin = relay_origin; state = live_state live })

-- The state after the test of `apply_expiry`; `saturating_duration_since` stops at 0, as `-` does.
abbrev pub expire : SessionState → ℕ → SessionState
expire (live_state live) now =
    if ltb phrase_lifetime (now - live.generated_at) then expired else live_state live
expire expired now = expired
expire spent now = spent
expire enrolled now = enrolled

unfoldable pub apply_expiry : PairingSession → ℕ → PairingSession
apply_expiry s now = record s { state = expire s.state now }

abbrev pub live_of : SessionState → Option LivePhrase
live_of (live_state live) = some live
live_of expired = none
live_of spent = none
live_of enrolled = none

abbrev pub live : PairingSession → Option LivePhrase
live s = live_of s.state

abbrev pub map_live : {A : Type 0} → Option LivePhrase → (LivePhrase → A) → Option A
map_live none f = none
map_live (some l) f = some (f l)

unfoldable pub is_live : PairingSession → ℕ → PairingSession × Bool
unfolding apply_expiry
is_live s now = let s' = apply_expiry s now in (s', is_some (live s'))

abbrev is_spent_state : SessionState → Bool
is_spent_state spent = true
is_spent_state (live_state l) = false
is_spent_state expired = false
is_spent_state enrolled = false

unfoldable pub is_spent : PairingSession → Bool
is_spent s = is_spent_state s.state

unfoldable pub handle : PairingSession → ℕ → PairingSession × Option Bytes
unfolding apply_expiry
handle s now = let s' = apply_expiry s now in (s', map_live (live s') (λ l. l.handle))

unfoldable pub phrase_display : PairingSession → ℕ → PairingSession × Option Bytes
unfolding apply_expiry
phrase_display s now =
    let s' = apply_expiry s now in (s', map_live (live s') (λ l. display_form l.phrase))

unfoldable pub phrase_canonical : PairingSession → ℕ → PairingSession × Option Bytes
unfolding apply_expiry
phrase_canonical s now =
    let s' = apply_expiry s now in (s', map_live (live s') (λ l. l.phrase.canonical))

unfoldable pub pairing_uri : PairingSession → ℕ → PairingSession × Option Bytes
unfolding apply_expiry
pairing_uri s now = let s' = apply_expiry s now in (s', map_live (live s') (λ l. l.uri))

unfoldable pub qr : PairingSession → ℕ → PairingSession × Option QrGrid
unfolding apply_expiry
qr s now = let s' = apply_expiry s now in (s', map_live (live s') (λ l. l.qr))

abbrev pub psk_from_phrase : Crates → Bytes → Bytes
psk_from_phrase crates phrase_utf8 = crates.blake2s phrase_utf8

unfoldable pub psk_for : Crates → PairingSession → ℕ → PairingSession × Option Bytes
unfolding apply_expiry
psk_for crates s now =
    let s' = apply_expiry s now in
    (s', map_live (live s') (λ l. psk_from_phrase crates l.phrase.canonical))

abbrev pub count_failure : SessionState → SessionState
count_failure (live_state l) =
    let counted = record l { failed_attempts = l.failed_attempts + 1 } in
    if leb max_attempts counted.failed_attempts then spent else live_state counted
count_failure expired = expired
count_failure spent = spent
count_failure enrolled = enrolled

unfoldable pub record_failed_attempt : PairingSession → ℕ → PairingSession
unfolding apply_expiry
record_failed_attempt s now =
    let s' = apply_expiry s now in record s' { state = count_failure s'.state }

unfoldable pub record_enrolled : PairingSession → PairingSession
record_enrolled s = record s { state = enrolled }

-- The session as the call leaves it, and its result.
unfoldable pub regenerate :
    Crates → PairingSession → List Bytes → Draws → ℕ → PairingSession × Option PairingError
regenerate crates s words draws now = elim (generate_live crates s.relay_origin words draws now) [
  | err e ↦ (s, some e)
  | ok l ↦ (record s { state = live_state l }, none)
]
