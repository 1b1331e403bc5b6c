-- ===== src/Proto/Phrase/Segments.antt =====
-- `segment_words` of phrase.rs: words with a hyphen of their own are found again.
use herdr_mobile.Base.{
  All, Bool-cases, Bytes, List, [], all, ap, append_nil, arith, drop, false, inl, inr, length,
  length-append, refl, suc, sym, take, true, zero, ℕ, ◌++◌, ◌+◌, ◌-◌, ◌∙◌, ◌∷◌, ◌≡◌,
}
use mathlib.Core.List.{append_assoc}
use herdr_mobile.Base.Strings.{contains, split, split-append, split_single, split_once-append}
use herdr_mobile.Proto.Phrase.{
  slice, contains_word, is_lowercase, segment_from, segment_words, join,
}
use herdr_mobile.Proto.Phrase.Normalize.{IsPart, Parted, nil, plain, hyphenated, tail, join-tail}

-- A word of the list, in its parts.
pub data Entry (words : List Bytes) : Bytes → Type 0 where
  whole : {w : Bytes} → IsPart w → Entry words w
  halves :
      (l r : Bytes)
      → IsPart l
      → IsPart r
      → contains_word words l ≡ false
      → Entry words (l ++ 45 ∷ r)

-- A list without ambiguity: every word is lowercase letters, or two runs of them with a hyphen
-- between, the first of which is no word itself.
abbrev pub IsUnambiguous : List Bytes → Type 0
IsUnambiguous words = (w : Bytes) → contains_word words w ≡ true → Entry words w

pub parted :
    (words : List Bytes)
    → IsUnambiguous words
    → (ws : List Bytes) → All (λ w. contains_word words w ≡ true) ws
    → (ps : List Bytes) × Parted words ws ps
parted words entries [] known = ([], nil)
parted words entries (w ∷ ws) (first, known) =
    let (ps, more) = parted words entries ws known in place w first (entries w first) ps more
  where
    place :
        (w : Bytes)
        → contains_word words w ≡ true
        → Entry words w
        → (ps : List Bytes) → Parted words ws ps
        → (qs : List Bytes) × Parted words (w ∷ ws) qs
    place w first (whole part) ps more = (w ∷ ps, plain part first more)
    place _ first (halves l r left right unknown) ps more =
        (l ∷ r ∷ ps, hyphenated left right first unknown more)

no_hyphen : (s : Bytes) → all is_lowercase s ≡ true → contains 45 s ≡ false
no_hyphen [] h = refl
no_hyphen (c ∷ s) h = ground (arith, no_hyphen s)

-- Splitting the text gives its parts.
split-tail :
    (words : List Bytes) {ws ps : List Bytes} (p : Bytes)
    → contains 45 p ≡ false
    → Parted words ws ps
    → split 45 (p ++ tail 45 ps) ≡ p ∷ ps
unfolding tail
split-tail words p clean nil = rw (append_nil p) (split_single 45 p clean)
split-tail words p clean (plain {p = q} {ps = ps} part known more) =
    split-append 45 p (q ++ tail 45 ps) clean
    ∙ ap (◌∷◌ p) (split-tail words q (no_hyphen q part.1) more)
split-tail words p clean (hyphenated {l = l} {r = r} {ps = ps} left right known unknown more) =
    split-append 45 p (l ++ 45 ∷ (r ++ tail 45 ps)) clean
    ∙ ap (◌∷◌ p) (
        split-append 45 l (r ++ tail 45 ps) (no_hyphen l left.1)
        ∙ ap (◌∷◌ l) (split-tail words r (no_hyphen r right.1) more))

pub split-join :
    (words : List Bytes) {w : Bytes} {ws ps : List Bytes}
    → Parted words (w ∷ ws) ps
    → split 45 (join 45 ps) ≡ ps
split-join words (plain {p = p} {ps = ps} part known more) =
    rw (join-tail 45 p ps) (split-tail words p (no_hyphen p part.1) more)
split-join words (hyphenated {l = l} {r = r} {ps = ps} left right known unknown more) =
    rw (join-tail 45 l (r ∷ ps)) (
      unfold tail in
      split-append 45 l (r ++ tail 45 ps) (no_hyphen l left.1)
      ∙ ap (◌∷◌ l) (split-tail words r (no_hyphen r right.1) more))

drop-append : (p s : Bytes) → drop (length p) (p ++ s) ≡ s
drop-append [] s = refl
drop-append (x ∷ p) s = drop-append p s

drop-add : (n m k : ℕ) (s : Bytes) → k ≡ n + m → drop k s ≡ drop m (drop n s)
drop-add zero m k s e = ap (λ j. drop j s) (omega arith)
drop-add (suc n) m zero s e = absurd (omega arith)
drop-add (suc n) zero (suc k) [] e = refl
drop-add (suc n) (suc m) (suc k) [] e = refl
drop-add (suc n) m (suc k) (x ∷ s) e = drop-add n m k s (omega arith)

take-append_lem : (p s : Bytes) → take (length p) (p ++ s) ≡ p
take-append_lem [] s = refl
take-append_lem (x ∷ p) s = ap (◌∷◌ x) (take-append_lem p s)

-- Two words that are joined by a hyphen are no word, if the first is one.
joined_unknown :
    (words : List Bytes) (p q : Bytes)
    → IsUnambiguous words
    → IsPart p
    → IsPart q
    → contains_word words p ≡ true
    → contains_word words (p ++ 45 ∷ q) ≡ false
joined_unknown words p q entries part next known =
    elim (Bool-cases (contains_word words (p ++ 45 ∷ q))) [
      | inr unknown ↦ unknown
      | inl joined ↦ absurd (clash (p ++ 45 ∷ q) refl (entries (p ++ 45 ∷ q) joined))
    ]
  where
    hyphen_in : (p q : Bytes) → contains 45 (p ++ 45 ∷ q) ≡ true
    hyphen_in [] q = refl
    hyphen_in (x ∷ p) q = ground (arith, hyphen_in p q)

    clash : (w : Bytes) → w ≡ p ++ 45 ∷ q → Entry words w → ⊥
    clash w e (whole all_lower) = let a = no_hyphen w all_lower.1 in let b = hyphen_in p q in cc
    clash w e (halves l r left right unknown) =
        let a = split_once-append 45 l r (no_hyphen l left.1) in
        let b = split_once-append 45 p q (no_hyphen p part.1) in cc

-- The text from an offset on is made of the parts.
abbrev IsAt : Bytes → ℕ → List Bytes → Type 0
IsAt text offset [] = Unit
IsAt text offset (p ∷ ps) = drop offset text ≡ p ++ tail 45 ps

slice_lem :
    (text p q rest : Bytes) (offset : ℕ)
    → drop offset text ≡ p ++ 45 ∷ (q ++ rest)
    → slice text offset (offset + length p + 1 + length q) ≡ p ++ 45 ∷ q
unfolding slice
slice_lem text p q rest offset at =
    let size : offset + length p + 1 + length q - offset ≡ length (p ++ 45 ∷ q) =
      omega (arith, length-append p (45 ∷ q)) in
    rw (size, at, ← append_assoc p (45 ∷ q) rest) (take-append_lem (p ++ 45 ∷ q) rest)

-- The offset behind a part and its hyphen.
drop_past :
    (text p rest : Bytes) (offset next : ℕ)
    → drop offset text ≡ p ++ 45 ∷ rest
    → next ≡ offset + (length p + 1)
    → drop next text ≡ rest
drop_past text p rest offset next at e =
    rw
      (
        drop-add offset (length p + 1) next text e,
        at,
        drop-add (length p) 1 (length p + 1) (p ++ 45 ∷ rest) refl,
        drop-append p (45 ∷ rest),
      )
      refl

IsAt-past :
    (text p : Bytes) (offset next : ℕ) (ps : List Bytes)
    → drop offset text ≡ p ++ tail 45 ps
    → next ≡ offset + (length p + 1)
    → IsAt text next ps
unfolding tail
IsAt-past text p offset next [] at e = tt
IsAt-past text p offset next (q ∷ ps) at e = drop_past text p (q ++ tail 45 ps) offset next at e

module _ (words : List Bytes) (entries : IsUnambiguous words) (text : Bytes) where
  segment_plain :
      (p q : Bytes) (ps ws : List Bytes) (offset : ℕ)
      → IsPart p
      → IsPart q
      → contains_word words p ≡ true
      → drop offset text ≡ p ++ 45 ∷ (q ++ tail 45 ps)
      → segment_from words text (offset + length p + 1) (q ∷ ps) ≡ ws
      → segment_from words text offset (p ∷ q ∷ ps) ≡ p ∷ ws
  unfolding segment_from
  segment_plain p q ps ws offset part next known at later =
      let e : contains_word words (slice text offset (offset + length p + 1 + length q)) ≡ false =
        rw (slice_lem text p q (tail 45 ps) offset at)
          (joined_unknown words p q entries part next known) in
      rw (e, segment_from) (ap (◌∷◌ p) later)

  segment_hyphenated :
      (l r : Bytes) (ps ws : List Bytes) (offset : ℕ)
      → slice text offset (offset + length l + 1 + length r) ≡ l ++ 45 ∷ r
      → contains_word words (slice text offset (offset + length l + 1 + length r)) ≡ true
      → segment_from words text (offset + length l + 1 + length r + 1) ps ≡ ws
      → segment_from words text offset (l ∷ r ∷ ps) ≡ (l ++ 45 ∷ r) ∷ ws
  unfolding segment_from
  segment_hyphenated l r ps ws offset joined e later =
      rw (e, segment_from) (rw (joined, later) refl)

  segment_from-Parted :
      {ws ps : List Bytes} (offset : ℕ)
      → Parted words ws ps
      → IsAt text offset ps
      → segment_from words text offset ps ≡ ws
  unfolding tail
  segment_from-Parted offset nil at = unfold segment_from in refl
  segment_from-Parted offset (plain part known nil) at = unfold segment_from in refl
  segment_from-Parted offset
        (plain {p = p} part known (plain {p = q} {ws = ws} {ps = ps} next k more)) at =
      segment_plain p q ps (q ∷ ws) offset part next known at (
        segment_from-Parted (offset + length p + 1) (plain next k more)
          (drop_past text p (q ++ tail 45 ps) offset (offset + length p + 1) at (omega arith)))
  segment_from-Parted offset
        (plain {p = p} part known
          (hyphenated {l = l} {r = r} {ws = ws} {ps = ps} left right k u more))
        at =
      segment_plain p l (r ∷ ps) ((l ++ 45 ∷ r) ∷ ws) offset part left known at (
        segment_from-Parted (offset + length p + 1) (hyphenated left right k u more) (
          drop_past text p (l ++ tail 45 (r ∷ ps)) offset (offset + length p + 1) at (omega arith)))
  segment_from-Parted offset
        (hyphenated {l = l} {r = r} {ws = ws} {ps = ps} left right known unknown more) at =
      let joined = slice_lem text l r (tail 45 ps) offset at in
      let e : contains_word words (slice text offset (offset + length l + 1 + length r)) ≡ true =
        rw joined known in
      segment_hyphenated l r ps ws offset joined e (
        segment_from-Parted (offset + length l + 1 + length r + 1) more (
          IsAt-past text (l ++ 45 ∷ r) offset (offset + length l + 1 + length r + 1) ps
            (at ∙ sym (append_assoc l (45 ∷ r) (tail 45 ps)))
            (omega (arith, length-append l (45 ∷ r)))))

-- The words are found again in the text of their parts.
pub segment_words-join :
    (words : List Bytes) {w : Bytes} {ws ps : List Bytes}
    → IsUnambiguous words
    → Parted words (w ∷ ws) ps
    → segment_words (join 45 ps) ps words ≡ w ∷ ws
unfolding segment_words
segment_words-join words {ws = ws} entries (plain {p = p} {ps = ps} part known more) =
    segment_from-Parted words entries (join 45 (p ∷ ps)) 0 (plain part known more)
      (join-tail 45 p ps)
segment_words-join words {ws = ws} entries
      (hyphenated {l = l} {r = r} {ps = ps} left right known u more) =
    segment_from-Parted words entries (join 45 (l ∷ r ∷ ps)) 0 (hyphenated left right known u more)
      (join-tail 45 l (r ∷ ps))
