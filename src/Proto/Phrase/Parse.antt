-- ===== src/Proto/Phrase/Parse.antt =====
-- `Phrase::parse_canonical` of phrase.rs: what it makes of a phrase that was generated or shown.
use mathlib.Core.List.{append_assoc}
use herdr_mobile.Base.{
  All, Bytes, List, [], all, any, ap, arith, beq_refl, false, is_empty, length, map, not, ok, refl,
  some, suc, true, zero, ℕ, ◌++◌, ◌<◌, ◌∙◌, ◌∷◌, ◌≡◌,
}
use herdr_mobile.Base.Strings.{split}
use herdr_mobile.Proto.Phrase.{
  word_count, eff_wordlist_entry_count, Phrase, is_separator, normalize, contains_word, word_at,
  generate, display_form, is_lowercase, segment_words, parse_canonical, join,
}
use herdr_mobile.Proto.Phrase.Normalize.{
  Parted, nil, plain, hyphenated, normalize-join, tail, join-tail,
}
use herdr_mobile.Proto.Phrase.Segments.{IsUnambiguous, parted, split-join, segment_words-join}

all_parts :
    (words : List Bytes) {ws ps : List Bytes}
    → Parted words ws ps
    → (any is_empty ps ≡ false)
      × (any (λ w. not (all is_lowercase w)) ps ≡ false)
      × (any (λ w. not (contains_word words w)) ws ≡ false)
all_parts words nil = (refl, refl, refl)
all_parts words (plain part known more) =
    ground (arith, part.0, part.1, known, all_parts words more)
all_parts words (hyphenated left right known unknown more) =
    let (a, b, c) = all_parts words more in
    (rw (left.0, right.0) a, rw (left.1, right.1) b, rw known c)

tail-Parted :
    (words : List Bytes) {ws ps : List Bytes} → Parted words ws ps → tail 45 ws ≡ tail 45 ps
unfolding tail
tail-Parted words nil = refl
tail-Parted words (plain {p = p} part known more) = ap (λ s. 45 ∷ (p ++ s)) (tail-Parted words more)
tail-Parted words (hyphenated {l = l} {r = r} {ws = ws} left right known unknown more) =
    rw (append_assoc l (45 ∷ r) (tail 45 ws))
      (ap (λ s. 45 ∷ (l ++ 45 ∷ (r ++ s))) (tail-Parted words more))

-- Hyphens between the words or between their parts: the text is the same.
join-Parted :
    (words : List Bytes) {ws ps : List Bytes} → Parted words ws ps → join 45 ws ≡ join 45 ps
join-Parted words nil = unfold join in refl
join-Parted words (plain {p = p} {ws = ws} {ps = ps} part known more) =
    rw (join-tail 45 p ws, join-tail 45 p ps, tail-Parted words more) refl
join-Parted words (hyphenated {l = l} {r = r} {ws = ws} {ps = ps} left right known unknown more) =
    rw
      (
        join-tail 45 (l ++ 45 ∷ r) ws,
        join-tail 45 l (r ∷ ps),
        append_assoc l (45 ∷ r) (tail 45 ws),
        tail-Parted words more,
      )
      (unfold tail in refl)

-- Six words of an unambiguous list of 7776, typed with any one separator between them (the hyphens
-- of the canonical form, the spaces of the display form), are parsed into exactly these words,
-- words with a hyphen of their own included, and the canonical text is the words with hyphens.
pub parse_canonical-join :
    (words : List Bytes) (c : ℕ) (ws : List Bytes)
    → IsUnambiguous words
    → length words ≡ eff_wordlist_entry_count
    → is_separator c ≡ true
    → length ws ≡ word_count
    → All (λ w. contains_word words w ≡ true) ws
    → parse_canonical (join c ws) words ≡ ok (record { canonical = join 45 ws; words = ws })
unfolding parse_canonical
parse_canonical-join words c [] entries size separates six known = absurd (omega arith)
parse_canonical-join words c (w ∷ ws) entries size separates six known =
    let (ps, cut) = parted words entries (w ∷ ws) known in
    let (full, low, found) = all_parts words cut in
    parsed ps (normalize-join words c separates cut) (join-Parted words cut) (split-join words cut)
      (segment_words-join words entries cut) full low found
  where
    parsed :
        (ps : List Bytes)
        → normalize (join c (w ∷ ws)) ≡ join 45 ps
        → join 45 (w ∷ ws) ≡ join 45 ps
        → split 45 (join 45 ps) ≡ ps
        → segment_words (join 45 ps) ps words ≡ w ∷ ws
        → any is_empty ps ≡ false
        → any (λ p. not (all is_lowercase p)) ps ≡ false
        → any (λ p. not (contains_word words p)) (w ∷ ws) ≡ false
        → parse_canonical (join c (w ∷ ws)) words
          ≡ ok (record { canonical = join 45 (w ∷ ws); words = w ∷ ws })
    parsed ps n same cut found full low known =
        rw (n, cut, found, full, low, size, six, known) (rw same refl)

known-word_at :
    (words : List Bytes) (i : ℕ) → i < length words → contains_word words (word_at words i) ≡ true
known-word_at [] i h = absurd (omega arith)
known-word_at (w ∷ ws) zero h = ground (arith, beq_refl w)
known-word_at (w ∷ ws) (suc i) h = ground (arith, known-word_at ws i)

pub known_words :
    (words : List Bytes) (indices : List ℕ)
    → All (λ i. i < length words) indices
    → All (λ w. contains_word words w ≡ true) (map (λ i. word_at words i) indices)
known_words words [] h = tt
known_words words (i ∷ indices) h = (known-word_at words i h.0, known_words words indices h.1)

length-chosen :
    (words : List Bytes) (indices : List ℕ)
    → length (map (λ i. word_at words i) indices) ≡ length indices
length-chosen words [] = refl
length-chosen words (i ∷ indices) = ap suc (length-chosen words indices)

-- A phrase that was generated from an unambiguous list of 7776 words is read back as it is, from
-- its canonical text and from its display form alike, whatever six words were drawn.
pub parse_canonical-generate :
    (words : List Bytes) (indices : List ℕ)
    → IsUnambiguous words
    → length words ≡ eff_wordlist_entry_count
    → length indices ≡ word_count
    → All (λ i. i < length words) indices
    → (p : Phrase) × (generate words (some indices) ≡ ok p)
      × (parse_canonical p.canonical words ≡ ok p)
      × (parse_canonical (display_form p) words ≡ ok p)
unfolding generate display_form
parse_canonical-generate words indices entries size six within =
    let chosen = map (λ i. word_at words i) indices in
    let known = known_words words indices within in
    let count = length-chosen words indices ∙ six in
    (
      record { canonical = join 45 chosen; words = chosen },
      rw size refl,
      parse_canonical-join words 45 chosen entries size refl count known,
      parse_canonical-join words 32 chosen entries size refl count known,
    )
