-- ===== src/Proto/Phrase/Normalize.antt =====
-- `normalize` of phrase.rs on a phrase that is spelt with separators of any kind.
use mathlib.Core.List.{append_assoc}
use herdr_mobile.Base.{
  Bool, Bytes, List, [], all, ap, append_nil, arith, false, is_empty, refl, sym, true, ℕ, ◌++◌, ◌∙◌,
  ◌∷◌, ◌≡◌,
}
use herdr_mobile.Proto.Phrase.{
  is_whitespace, trim_start, trim_end, is_separator, lower, collapse, normalize, contains_word,
  is_lowercase, join,
}

-- A part of a word: lowercase letters, at least one.
abbrev pub IsPart : Bytes → Type 0
IsPart s = (is_empty s ≡ false) × (all is_lowercase s ≡ true)

-- Words with the parts between their hyphens. The first part of a word in two parts is no word.
pub data Parted (words : List Bytes) : List Bytes → List Bytes → Type 0 where
  nil : Parted words [] []
  plain :
      {p : Bytes} {ws ps : List Bytes}
      → IsPart p
      → contains_word words p ≡ true
      → Parted words ws ps
      → Parted words (p ∷ ws) (p ∷ ps)
  hyphenated :
      {l r : Bytes} {ws ps : List Bytes}
      → IsPart l
      → IsPart r
      → contains_word words (l ++ 45 ∷ r) ≡ true
      → contains_word words l ≡ false
      → Parted words ws ps
      → Parted words ((l ++ 45 ∷ r) ∷ ws) (l ∷ r ∷ ps)

lowercase_lem :
    (c : ℕ)
    → is_lowercase c ≡ true
    → (is_separator c ≡ false) × (is_whitespace c ≡ false) × (lower c ≡ c)
lowercase_lem c h = ground arith

-- A part passes through the loop as it is.
collapse-append :
    (b : Bool) (p rest : Bytes)
    → is_empty p ≡ false
    → all is_lowercase p ≡ true
    → collapse b (p ++ rest) ≡ p ++ collapse false rest
unfolding collapse
collapse-append b [] rest h k = cc
collapse-append b (c ∷ []) rest h k = ground (arith, lowercase_lem c)
collapse-append b (c ∷ d ∷ p) rest h k =
    ground (arith, lowercase_lem c, collapse-append false (d ∷ p) rest refl)

collapse_separator :
    (c : ℕ) (rest : Bytes)
    → is_separator c ≡ true
    → collapse false (c ∷ rest) ≡ 45 ∷ collapse true rest
unfolding collapse
collapse_separator c rest h = rw h refl

-- The words after the first, each with the separator before it.
unfoldable pub tail : ℕ → List Bytes → Bytes
tail c [] = []
tail c (w ∷ ws) = c ∷ (w ++ tail c ws)

pub join-tail : (c : ℕ) (w : Bytes) (ws : List Bytes) → join c (w ∷ ws) ≡ w ++ tail c ws
unfolding join tail
join-tail c w [] = sym (append_nil w)
join-tail c w (v ∷ ws) = ap (λ s. w ++ c ∷ s) (join-tail c v ws)

collapse_part :
    (b : Bool) (p rest out : Bytes)
    → IsPart p
    → collapse false rest ≡ out
    → collapse b (p ++ rest) ≡ p ++ out
collapse_part b p rest out (some_part, low) e =
    collapse-append b p rest some_part low ∙ ap (◌++◌ p) e

collapse_next :
    (c : ℕ) (p rest out : Bytes)
    → is_separator c ≡ true
    → IsPart p
    → collapse false rest ≡ out
    → collapse false (c ∷ (p ++ rest)) ≡ 45 ∷ (p ++ out)
collapse_next c p rest out separates part e =
    collapse_separator c (p ++ rest) separates ∙ ap (◌∷◌ 45) (collapse_part true p rest out part e)

-- The loop turns any separator into one hyphen.
module _ (words : List Bytes) (c : ℕ) (separates : is_separator c ≡ true) where
  collapse-tail :
      {ws ps : List Bytes} → Parted words ws ps → collapse false (tail c ws) ≡ tail 45 ps
  unfolding tail
  collapse-tail nil = unfold collapse in refl
  collapse-tail (plain {p = p} {ws = ws} {ps = ps} part known more) =
      collapse_next c p (tail c ws) (tail 45 ps) separates part (collapse-tail more)
  collapse-tail (hyphenated {l = l} {r = r} {ws = ws} {ps = ps} left right known unknown more) =
      rw (append_assoc l (45 ∷ r) (tail c ws)) (
        collapse_next c l (45 ∷ (r ++ tail c ws)) (45 ∷ (r ++ tail 45 ps)) separates left
          (collapse_next 45 r (tail c ws) (tail 45 ps) refl right (collapse-tail more)))

  collapse-join :
      {ws ps : List Bytes} → Parted words ws ps → collapse false (join c ws) ≡ join 45 ps
  collapse-join nil = unfold collapse join in refl
  collapse-join (plain {p = p} {ws = ws} {ps = ps} part known more) =
      rw (join-tail c p ws, join-tail 45 p ps)
        (collapse_part false p (tail c ws) (tail 45 ps) part (collapse-tail more))
  collapse-join (hyphenated {l = l} {r = r} {ws = ws} {ps = ps} left right known unknown more) =
      rw
        (join-tail c (l ++ 45 ∷ r) ws, join-tail 45 l (r ∷ ps), append_assoc l (45 ∷ r) (tail c ws))
        (collapse_part false l (45 ∷ (r ++ tail c ws)) (tail 45 (r ∷ ps)) left (
          unfold tail in
          collapse_next 45 r (tail c ws) (tail 45 ps) refl right (collapse-tail more)))

-- Outer whitespace: there is none before a letter, and none after one.
trim_start_lem : (p rest : Bytes) → IsPart p → trim_start (p ++ rest) ≡ p ++ rest
unfolding trim_start
trim_start_lem [] rest part = absurd (true_ne (sym part.0))
  where
    true_ne : false ≡ true → ⊥
    true_ne e = cc
trim_start_lem (x ∷ p) rest part = ground (arith, part.1, lowercase_lem x)

-- The text ends in a letter.
abbrev pub Ends : Bytes → Type 0
Ends s = (is_empty s ≡ false) × (trim_end s ≡ s)

Ends-append : (s t : Bytes) → Ends t → Ends (s ++ t)
unfolding trim_end
Ends-append [] t e = e
Ends-append (x ∷ s) t e =
    let (some_text, kept) = Ends-append s t e in (refl, rw (kept, some_text) (ground arith))

Ends-part : (p : Bytes) → IsPart p → Ends p
unfolding trim_end
Ends-part [] part = absurd (true_ne (sym part.0))
  where
    true_ne : false ≡ true → ⊥
    true_ne e = cc
Ends-part (x ∷ []) part = (refl, ground (arith, part.1, lowercase_lem x))
Ends-part (x ∷ y ∷ p) part =
    let (some_text, kept) = Ends-part (y ∷ p) (refl, ground (arith, part.1)) in
    (refl, ground (arith, part.1, lowercase_lem x, kept))

Ends-tail :
    (words : List Bytes) (c : ℕ) {ws ps : List Bytes} (s : Bytes)
    → Ends s
    → Parted words ws ps
    → Ends (s ++ tail c ws)
unfolding tail
Ends-tail words c s e nil = rw (append_nil s) e
Ends-tail words c s e (plain {p = p} {ws = ws} part known more) =
    Ends-append s (c ∷ (p ++ tail c ws))
      (Ends-append (c ∷ []) (p ++ tail c ws) (Ends-tail words c p (Ends-part p part) more))
Ends-tail words c s e (hyphenated {l = l} {r = r} {ws = ws} left right known unknown more) =
    Ends-append s (c ∷ ((l ++ 45 ∷ r) ++ tail c ws)) (
      Ends-append (c ∷ []) ((l ++ 45 ∷ r) ++ tail c ws) (
        Ends-tail words c (l ++ 45 ∷ r)
          (Ends-append l (45 ∷ r) (Ends-append (45 ∷ []) r (Ends-part r right))) more))

-- Words with any one separator between them are normalised to their parts with hyphens.
pub normalize-join :
    (words : List Bytes) (c : ℕ) {w : Bytes} {ws ps : List Bytes}
    → is_separator c ≡ true
    → Parted words (w ∷ ws) ps
    → normalize (join c (w ∷ ws)) ≡ join 45 ps
unfolding normalize
normalize-join words c {w = w} {ws = ws} separates (plain part known more) =
    rw
      (
        join-tail c w ws,
        trim_start_lem w (tail c ws) part,
        (Ends-tail words c w (Ends-part w part) more).1,
        ← join-tail c w ws,
      )
      (collapse-join words c separates (plain part known more))
normalize-join words c {ws = ws} separates
      (hyphenated {l = l} {r = r} left right known unknown more) =
    let ends =
      Ends-tail words c (l ++ 45 ∷ r)
        (Ends-append l (45 ∷ r) (Ends-append (45 ∷ []) r (Ends-part r right))) more in
    let start : trim_start ((l ++ 45 ∷ r) ++ tail c ws) ≡ (l ++ 45 ∷ r) ++ tail c ws =
      rw (append_assoc l (45 ∷ r) (tail c ws)) (trim_start_lem l (45 ∷ (r ++ tail c ws)) left) in
    rw (join-tail c (l ++ 45 ∷ r) ws, start, ends.1, ← join-tail c (l ++ 45 ∷ r) ws)
      (collapse-join words c separates (hyphenated left right known unknown more))
