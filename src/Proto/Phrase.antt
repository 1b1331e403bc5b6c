-- ===== src/Proto/Phrase.antt =====
-- The pairing phrase: crates/herdr-relay-proto/src/phrase.rs. Its texts are lists of characters.
use herdr_mobile.Base.{
  Bool, Bytes, List, Option, Result, [], all, any, beq, drop, err, false, if◌then◌else◌, is_empty,
  leb, length, map, not, ok, ok_or, suc, take, true, zero, ℕ, ◌&&◌, ◌++◌, ◌+◌, ◌-◌, ◌==◌, ◌>>=◌,
  ◌||◌, ◌∷◌,
}
use herdr_mobile.Base.Strings.{split}
pub mod Normalize
pub mod Segments
pub mod Parse

abbrev pub word_count : ℕ
word_count = 6

abbrev pub eff_wordlist_entry_count : ℕ
eff_wordlist_entry_count = 7776

pub data PhraseError : Type 0 where
  word_list_size : ℕ → PhraseError
  separator case_error word_count_error word_unknown generate_error : PhraseError

pub record Phrase : Type 0 where
  pub canonical : Bytes
  pub words : List Bytes

-- `char::is_whitespace`.
abbrev pub is_whitespace : ℕ → Bool
is_whitespace c =
    (leb 9 c && leb c 13)
    || (c == 32
        || (c == 133
            || (c == 160
                || (c == 5760
                    || ((leb 8192 c && leb c 8202)
                        || (c == 8232
                            || (c == 8233 || (c == 8239 || (c == 8287 || c == 12288)))))))))

-- `str::trim`.
unfoldable pub trim_start : Bytes → Bytes
trim_start [] = []
trim_start (c ∷ s) = let rest = trim_start s in if is_whitespace c then rest else c ∷ s

unfoldable pub trim_end : Bytes → Bytes
trim_end [] = []
trim_end (c ∷ s) =
    let rest = trim_end s in if is_whitespace c && is_empty rest then [] else c ∷ rest

abbrev pub is_separator : ℕ → Bool
is_separator c = c == 45 || is_whitespace c

abbrev pub lower : ℕ → ℕ
lower c = if leb 65 c && leb c 90 then c + 32 else c

-- The loop of `normalize`, after a separator or not.
unfoldable pub collapse : Bool → Bytes → Bytes
collapse last_was_separator [] = []
collapse last_was_separator (c ∷ s) =
    if is_separator c
    then (let rest = collapse true s in if last_was_separator then rest else 45 ∷ rest)
    else lower c ∷ collapse false s

unfoldable pub normalize : Bytes → Bytes
unfolding collapse
normalize input = collapse false (trim_end (trim_start input))

unfoldable pub slice : Bytes → ℕ → ℕ → Bytes
slice s from to = take (to - from) (drop from s)

abbrev pub contains_word : List Bytes → Bytes → Bool
contains_word words word = any (λ w. beq w word) words

-- The loop of `segment_words`, with the offset of the current part in the text.
unfoldable pub segment_from : List Bytes → Bytes → ℕ → List Bytes → List Bytes
segment_from words normalized offset [] = []
segment_from words normalized offset (p ∷ []) = p ∷ []
segment_from words normalized offset (p ∷ q ∷ parts) =
    let end = offset + length p + 1 + length q in
    let joined = slice normalized offset end in
    elim (contains_word words joined) [
      | true ↦ joined ∷ segment_from words normalized (end + 1) parts
      | false ↦ p ∷ segment_from words normalized (offset + length p + 1) (q ∷ parts)
    ]

unfoldable pub segment_words : Bytes → List Bytes → List Bytes → List Bytes
segment_words normalized parts words = segment_from words normalized 0 parts

abbrev pub is_lowercase : ℕ → Bool
is_lowercase c = leb 97 c && leb c 122

unfoldable pub parse_canonical : Bytes → List Bytes → Result PhraseError Phrase
parse_canonical candidate words =
    let normalized = normalize candidate in
    let parts = split 45 normalized in
    let segmented = segment_words normalized parts words in
    if not (length words == eff_wordlist_entry_count)
    then err (word_list_size (length words))
    else if any is_empty parts
    then err separator
    else if any (λ word. not (all is_lowercase word)) parts
    then err case_error
    else if not (length segmented == word_count)
    then err word_count_error
    else if any (λ word. not (contains_word words word)) segmented
    then err word_unknown
    else ok (record { canonical = normalized; words = segmented })

-- `join` of the standard library, with one character between.
unfoldable pub join : ℕ → List Bytes → Bytes
join c [] = []
join c (w ∷ []) = w
join c (w ∷ v ∷ ws) = w ++ c ∷ join c (v ∷ ws)

unfoldable pub display_form : Phrase → Bytes
unfolding join
display_form p = join 32 p.words

-- `words[i]`, for an index within the list.
abbrev pub word_at : List Bytes → ℕ → Bytes
word_at [] i = []
word_at (w ∷ ws) zero = w
word_at (w ∷ ws) (suc i) = word_at ws i

-- The six indices that the random source yields are an argument; it may fail.
unfoldable pub generate : List Bytes → Option (List ℕ) → Result PhraseError Phrase
generate words drawn =
    if not (length words == eff_wordlist_entry_count)
    then err (word_list_size (length words))
    else ok_or drawn generate_error >>= λ indices.
        let chosen = map (λ i. word_at words i) indices in
        ok (record { canonical = join 45 chosen; words = chosen })
