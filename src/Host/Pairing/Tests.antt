-- ===== src/Host/Pairing/Tests.antt =====
-- Concrete runs of the pairing session of pairing.rs.
use herdr_mobile.Base.{
  Bytes, List, [], arith, beq, codes, err, if◌then◌else◌, leb, length, none, not, ok, refl, secs,
  some, take, true, ℕ, ◌*◌, ◌+◌, ◌<◌, ◌∷◌, ◌≡◌, ◌≤◌, ◌⊎◌,
}
use herdr_mobile.Proto.Phrase.{Phrase, generate, display_form, parse_canonical, join}
use herdr_mobile.Proto.PairingUri.{PairingUri, build, parse, is_absolute_http_origin, encode_handle}
use herdr_mobile.Proto.Percent.{percent_encode, lossy_from}
use herdr_mobile.Proto.Samples.{
  base64, encode, origin, a_handle, all_bytes, base64-Base64Laws, sample_words, repeat_word,
  length-sample_words, sample_words-IsUnambiguous,
}
use herdr_mobile.Host.Pairing.{
  QrCrate, data_too_long, Crates, Draws, LivePhrase, PairingSession, live_state, bits_of,
  first_version, count_from, encode_qr, qr_from_uri, generate_live, new, psk_for, psk_from_phrase,
  handle, phrase_display, phrase_canonical, pairing_uri, qr, is_live, is_spent, apply_expiry,
  record_failed_attempt,
}
use herdr_mobile.Host.Pairing.Qr.{IsGridOf, encode_qr_smallest}
use herdr_mobile.Host.Pairing.Issued.{parse-generate_live}
use herdr_mobile.Host.Pairing.Ledger.{
  Call, asked, failed, renewed, answer, is_over, queries-run, Ledger, open_ledger, ledger_run, run,
}

-- A QR crate whose version holds twenty bytes more than the one before.
abbrev squares : QrCrate
squares = record {
  Bits = ℕ × Bytes;
  new_bits = λ v. (v, []);
  push_byte_data =
      λ (v, bits) payload. if leb (length payload) (v * 20) then some (v, payload) else none;
  push_terminator = λ bits. some bits;
  with_bits = λ (v, bits). ok (17 + 4 * v, true ∷ []);
}

abbrev crates : Crates
crates = record { b64 = base64; qrcode = squares; blake2s = λ bytes. take 32 bytes }

abbrev draws : Draws
draws = record { handle_bytes = some a_handle; word_indices = some (1 ∷ 0 ∷ 5 ∷ 0 ∷ 2 ∷ 1 ∷ []) }

abbrev phrase_words : List Bytes
phrase_words =
    codes "tan" ∷ codes "t-shirt" ∷ codes "zoom" ∷ codes "t-shirt" ∷ codes "zoom" ∷ codes "tan" ∷ []

abbrev phrase : Phrase
phrase = record { canonical = join 45 phrase_words; words = phrase_words }

abbrev issued_uri : Bytes
issued_uri =
    build base64 (record { relay_origin = origin; handle = a_handle; phrase = phrase.canonical })

abbrev issued : LivePhrase
issued = record {
  handle = a_handle;
  phrase = phrase;
  generated_at = secs 1;
  failed_attempts = 0;
  uri = issued_uri;
  qr = record { width = 45; modules = true ∷ [] };
}

generated : generate sample_words (some (1 ∷ 0 ∷ 5 ∷ 0 ∷ 2 ∷ 1 ∷ [])) ≡ ok phrase
unfolding generate
generated = rw length-sample_words (unfold sample_words repeat_word in refl)

issued_lem : generate_live crates origin sample_words draws (secs 1) ≡ ok issued
unfolding generate_live
issued_lem = rw generated (
    unfold build percent_encode encode join encode_qr first_version count_from bits_of
      encode_handle in
    refl)

abbrev calls : List Call
calls =
    failed (secs 2)
    ∷ asked (secs 3)
    ∷ failed (secs 4)
    ∷ renewed draws (secs 5)
    ∷ failed (secs 6)
    ∷ []

abbrev opened : PairingSession
opened = run crates sample_words (record { relay_origin = origin; state = live_state issued }) calls

abbrev final : Ledger
final = ledger_run crates sample_words origin (open_ledger issued) calls

queries-run_example :
    (new crates origin sample_words draws (secs 1)
      ≡ ok (record { relay_origin = origin; state = live_state issued }))
    × ((psk_for crates opened (secs 7)).1
        ≡ answer final (secs 7) (λ p. psk_from_phrase crates p.phrase.canonical))
    × ((handle opened (secs 7)).1 ≡ answer final (secs 7) (λ p. p.handle))
    × ((phrase_display opened (secs 7)).1 ≡ answer final (secs 7) (λ p. display_form p.phrase))
    × ((phrase_canonical opened (secs 7)).1 ≡ answer final (secs 7) (λ p. p.phrase.canonical))
    × ((pairing_uri opened (secs 7)).1 ≡ answer final (secs 7) (λ p. p.uri))
    × ((qr opened (secs 7)).1 ≡ answer final (secs 7) (λ p. p.qr))
    × ((is_live opened (secs 7)).1 ≡ not (is_over final (secs 7)))
queries-run_example =
    queries-run crates sample_words origin draws (secs 1) issued calls (secs 7) issued_lem
      (omega arith, (omega arith, (omega arith, (omega arith, (omega arith, omega arith)))))

-- The third failure spends the phrase.
spent_after_three :
    is_spent (
      run crates sample_words
        (record { relay_origin = origin; state = live_state issued })
        (failed (secs 2) ∷ failed (secs 3) ∷ failed (secs 4) ∷ []))
    ≡ true
unfolding run record_failed_attempt apply_expiry is_spent
spent_after_three = refl

parse-generate_live_example :
    (p : PairingUri) × (parse base64 issued_uri ≡ ok p)
    × (p.relay_origin ≡ origin)
    × (p.handle ≡ a_handle)
    × (parse_canonical p.phrase sample_words ≡ ok phrase)
    × (qr_from_uri squares issued_uri ≡ ok (record { width = 45; modules = true ∷ [] }))
unfolding lossy_from is_absolute_http_origin beq
parse-generate_live_example =
    parse-generate_live crates origin sample_words a_handle (1 ∷ 0 ∷ 5 ∷ 0 ∷ 2 ∷ 1 ∷ []) (secs 1)
      issued issued_lem base64-Base64Laws (all_bytes a_handle refl) refl (all_bytes origin refl)
      refl refl sample_words-IsUnambiguous length-sample_words refl
      (rw length-sample_words (
        omega arith,
        (omega arith, (omega arith, (omega arith, (omega arith, (omega arith, tt))))),
      ))

encode_qr_smallest_example :
    ((encode_qr squares issued_uri ≡ err data_too_long)
      × ((v : ℕ) → 1 ≤ v → v ≤ 40 → bits_of squares issued_uri v ≡ none))
    ⊎ ((v : ℕ) × (1 ≤ v)
        × (v ≤ 40)
        × IsGridOf squares issued_uri v (encode_qr squares issued_uri)
        × ((w : ℕ) → 1 ≤ w → w < v → bits_of squares issued_uri w ≡ none))
encode_qr_smallest_example = encode_qr_smallest squares issued_uri
