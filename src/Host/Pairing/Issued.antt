-- ===== src/Host/Pairing/Issued.antt =====
-- `LivePhrase::generate` of pairing.rs: what it issues.
use herdr_mobile.Base.{
  All, Bool-cases, Bytes, List, Option-cases, Result, Result-cases, [], all, ap, arith, err, false,
  inl, inr, length, ltb, map, map_err, ok, refl, some, subst, sym, true, ℕ, ◌<◌, ◌∙◌, ◌∷◌, ◌≡◌, ◌≤◌,
}
use herdr_mobile.Proto.Phrase.{Phrase, generate}
use herdr_mobile.Proto.Percent.{from_utf8_lossy}
use herdr_mobile.Proto.Percent.Roundtrip.{IsByte}
use herdr_mobile.Proto.PairingUri.{
  PairingUri, build, parse, pairing_uri_max_len, handle_bytes, is_absolute_http_origin,
}
use herdr_mobile.Proto.PairingUri.Roundtrip.{Base64Laws, parse-build}
use herdr_mobile.Base.Strings.{contains, contains-append}
use herdr_mobile.Proto.Phrase.Segments.{Entry, whole, halves, IsUnambiguous}
use herdr_mobile.Proto.Phrase.Parse.{parse_canonical-generate, known_words}
use herdr_mobile.Proto.Phrase.{
  is_lowercase, join, contains_word, eff_wordlist_entry_count, word_count, parse_canonical, word_at,
}
use herdr_mobile.Host.Pairing.{
  Crates, Draws, LivePhrase, QrGrid, encode_qr, generate_live, qr_from_uri,
}

abbrev pub uri_of : Bytes → LivePhrase → PairingUri
uri_of origin l = record { relay_origin = origin; handle = l.handle; phrase = l.phrase.canonical }

map_err_ok : {E F A : Type 0} (f : E → F) (r : Result E A) (a : A) → map_err f r ≡ ok a → r ≡ ok a
map_err_ok f (ok x) a h = cc
map_err_ok f (err x) a h = cc

abbrev IsIssued : Crates → Bytes → List Bytes → Draws → ℕ → LivePhrase → Type 0
IsIssued crates origin words draws now l =
    (l.generated_at ≡ now)
    × (l.failed_attempts ≡ 0)
    × (draws.handle_bytes ≡ some l.handle)
    × (generate words draws.word_indices ≡ ok l.phrase)
    × (l.uri ≡ build crates.b64 (uri_of origin l))
    × (length l.uri ≤ pairing_uri_max_len)
    × (encode_qr crates.qrcode l.uri ≡ ok l.qr)

abbrev issued : Bytes → ℕ → Bytes → Phrase → Bytes → QrGrid → LivePhrase
issued origin now id phrase uri grid = record {
  handle = id;
  phrase = phrase;
  generated_at = now;
  failed_attempts = 0;
  uri = uri;
  qr = grid;
}

-- What is issued carries the drawn handle and phrase, the instant, no failure, the URI of the
-- three, at most 512 bytes long, and the code of that URI.
pub generate_live-ok :
    (crates : Crates) (origin : Bytes) (words : List Bytes) (draws : Draws) (now : ℕ)
    (l : LivePhrase)
    → generate_live crates origin words draws now ≡ ok l
    → IsIssued crates origin words draws now l
unfolding generate_live
generate_live-ok crates origin words draws now l h = elim (Option-cases draws.handle_bytes) [
  | inl e ↦ ground (arith, h, e)
  | inr (id, e) ↦ elim (Result-cases (generate words draws.word_indices)) [
    | inr (x, e') ↦ ground (arith, h, e, e')
    | inl (phrase, e') ↦
        let uri =
          build crates.b64
            (record { relay_origin = origin; handle = id; phrase = phrase.canonical }) in
        elim (Bool-cases (ltb pairing_uri_max_len (length uri))) [
          | inl long ↦ ground (arith, h, e, e', long)
          | inr short ↦ elim (Result-cases (encode_qr crates.qrcode uri)) [
            | inr (x, e2) ↦ ground (arith, h, e, e', short, e2)
            | inl (grid, e2) ↦
                let same : issued origin now id phrase uri grid ≡ l =
                  ground (arith, h, e, e', short, e2) in
                subst (IsIssued crates origin words draws now) same
                  (refl, refl, e, e', refl, ground (arith, short), e2)
          ]
        ]
  ]
]

lowercase_parts : (s : Bytes) → all is_lowercase s ≡ true → contains 38 s ≡ false
lowercase_parts [] h = refl
lowercase_parts (c ∷ s) h = ground (arith, lowercase_parts s)

contains_entry : (words : List Bytes) {w : Bytes} → Entry words w → contains 38 w ≡ false
contains_entry words (whole {w = w} part) = lowercase_parts w part.1
contains_entry words (halves l r left right unknown) =
    contains-append 38 l (45 ∷ r) (lowercase_parts l left.1)
      (ground (arith, lowercase_parts r right.1))

contains-join :
    (words : List Bytes) (ws : List Bytes)
    → IsUnambiguous words
    → All (λ w. contains_word words w ≡ true) ws
    → contains 38 (join 45 ws) ≡ false
unfolding join
contains-join words [] entries known = refl
contains-join words (w ∷ []) entries known = contains_entry words (entries w known.0)
contains-join words (w ∷ v ∷ ws) entries known =
    contains-append 38 w (45 ∷ join 45 (v ∷ ws)) (contains_entry words (entries w known.0))
      (ground (arith, contains-join words (v ∷ ws) entries known.1))

canonical-generate :
    (words : List Bytes) (indices : List ℕ) (p : Phrase)
    → length words ≡ eff_wordlist_entry_count
    → generate words (some indices) ≡ ok p
    → p.canonical ≡ join 45 (map (λ i. word_at words i) indices)
unfolding generate
canonical-generate words indices p count h = ground (arith, h, count)

-- What the Host issues is what `PairingUri::parse` and `Phrase::parse_canonical` of herdr-relay-proto
-- read back: for an origin that the validator accepts and that is UTF-8, a handle of 16 bytes, six
-- words within an unambiguous list of 7776, and a base64 engine that decodes what it encoded, the
-- URI that is issued is parsed into the origin, the handle and a phrase that reads as the issued
-- one, and the popup makes of the URI the code that the session holds.
pub parse-generate_live :
    (crates : Crates) (origin : Bytes) (words : List Bytes) (id : Bytes) (indices : List ℕ)
    (now : ℕ) (l : LivePhrase)
    → generate_live crates origin words
        (record { handle_bytes = some id; word_indices = some indices })
        now
      ≡ ok l
    → Base64Laws crates.b64
    → All IsByte id
    → length id ≡ handle_bytes
    → All IsByte origin
    → from_utf8_lossy origin ≡ origin
    → is_absolute_http_origin origin ≡ true
    → IsUnambiguous words
    → length words ≡ eff_wordlist_entry_count
    → length indices ≡ word_count
    → All (λ i. i < length words) indices
    → (p : PairingUri) × (parse crates.b64 l.uri ≡ ok p)
      × (p.relay_origin ≡ origin)
      × (p.handle ≡ id)
      × (parse_canonical p.phrase words ≡ ok l.phrase)
      × (qr_from_uri crates.qrcode l.uri ≡ ok l.qr)
unfolding qr_from_uri
parse-generate_live crates origin words id indices now l h laws id_bytes size bytes utf8 valid
      entries count six within =
    let (_, _, drawn, chosen, built, short, code) =
      generate_live-ok crates origin words _ now l h in
    let (p, generated, from_text, from_display) =
      parse_canonical-generate words indices entries count six within in
    let same : p ≡ l.phrase = cc (generated, chosen) in
    let same_id : l.handle ≡ id = cc drawn in
    (
      uri_of origin l,
      rw built (
          parse-build crates.b64 (uri_of origin l) laws (subst (All IsByte) (sym same_id) id_bytes)
            (ap length same_id ∙ size) bytes utf8 valid
            (rw (canonical-generate words indices l.phrase count chosen) (
              contains-join words (map (λ i. word_at words i) indices) entries
                (known_words words indices within)))
            (subst (λ u. length u ≤ pairing_uri_max_len) built short)),
      refl,
      same_id,
      subst (λ q. parse_canonical q.canonical words ≡ ok q) same from_text,
      rw code (ground (arith, short)),
    )
