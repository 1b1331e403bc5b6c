-- ===== src/Host/Input/Editor.antt =====
-- The composer line that the calls of input.rs edit: an editor that sees only the calls that succeed.
use herdr_mobile.Base.{
  All, Bool-cases, Bytes, List, Option, [], any, ap, append_nil, arith, beq, beq_refl, codes, drop,
  false, if◌then◌else◌, inl, inr, length, none, refl, some, subst, suc, sym, take, true, zero, ℕ,
  ◌&&◌, ◌++◌, ◌+◌, ◌∙◌, ◌∷◌, ◌≡◌,
}
use mathlib.Core.List.{append_assoc}
use herdr_mobile.Base.Strings.{contains}
use herdr_mobile.Host.Input.{
  Call, pane_send_text, pane_send_input, Calls, Env, call, typed_call, send_typed_text,
  is_key_sequence, is_submit, eq_ignore_ascii_case, last_start, press_keys,
}

unfoldable pub concat : List Bytes → Bytes
concat [] = []
concat (g ∷ gs) = g ++ concat gs

-- What Unicode says of the segmentation: the graphemes are the text, and cutting a text between two
-- of them segments both parts as before.
pub record GraphemeLaws (graphemes : Bytes → List Bytes) : Type 0 where
  pub concat-graphemes : (s : Bytes) → concat (graphemes s) ≡ s
  pub front : (n : ℕ) (s : Bytes) → graphemes (concat (take n (graphemes s))) ≡ take n (graphemes s)
  pub back : (n : ℕ) (s : Bytes) → graphemes (concat (drop n (graphemes s))) ≡ drop n (graphemes s)

unfoldable pub init : List Bytes → List Bytes
init [] = []
init (g ∷ []) = []
init (g ∷ h ∷ gs) = g ∷ init (h ∷ gs)

-- Backspace takes the last grapheme away.
abbrev pub delete_last : Env → Bytes → Bytes
delete_last env s = concat (init (env.graphemes s))

abbrev pub type_text : Bytes → Bytes → Bytes
type_text s text = if is_key_sequence text then s else s ++ text

unfoldable pub edit_keys : Env → Bytes → List Bytes → Bytes
edit_keys env s [] = s
edit_keys env s (key ∷ keys) =
    edit_keys env (if eq_ignore_ascii_case key (codes "Backspace") then delete_last env s else s)
      keys

-- Enter and ctrl+c leave an empty line.
abbrev pub press : Env → Bytes → List Bytes → Bytes
press env s keys = if any is_submit keys then [] else edit_keys env s keys

abbrev pub type_option : Bytes → Option Bytes → Bytes
type_option s none = s
type_option s (some text) = type_text s text

abbrev pub press_option : Env → Bytes → Option (List Bytes) → Bytes
press_option env s none = s
press_option env s (some keys) = press env s keys

abbrev pub pane_of : Call → Bytes
pane_of (pane_send_text pane_id text) = pane_id
pane_of (pane_send_input pane_id text keys) = pane_id

abbrev pub edit : Env → Bytes → Call → Bytes
edit env s (pane_send_text pane_id text) = type_text s text
edit env s (pane_send_input pane_id text keys) = press_option env (type_option s text) keys

-- The line of a pane after calls, of which only those to the pane that succeeded count.
unfoldable pub replay : Env → Bytes → Bytes → Calls → Bytes
replay env pane s [] = s
replay env pane s ((c, sent) ∷ calls) =
    replay env pane (if sent && beq (pane_of c) pane then edit env s c else s) calls

pub replay-append :
    (env : Env) (pane s : Bytes) (cs ds : Calls)
    → replay env pane s (cs ++ ds) ≡ replay env pane (replay env pane s cs) ds
unfolding replay
replay-append env pane s [] ds = refl
replay-append env pane s ((c, sent) ∷ cs) ds =
    replay-append env pane (if sent && beq (pane_of c) pane then edit env s c else s) cs ds

-- From one log and line of a pane to another, by calls to this pane.
abbrev pub Ran : Env → Bytes → Calls → Bytes → Calls → Bytes → Type 0
Ran env pane calls s calls' s' =
    (new : Calls) × (calls' ≡ calls ++ new)
    × All (λ entry. pane_of entry.0 ≡ pane) new
    × (replay env pane s new ≡ s')

pub Ran-none : (env : Env) (pane : Bytes) (calls : Calls) (s : Bytes) → Ran env pane calls s calls s
Ran-none env pane calls s = ([], sym (append_nil calls), tt, unfold replay in refl)

All-append : {A : Type 0} (P : A → Type 0) (xs ys : List A) → All P xs → All P ys → All P (xs ++ ys)
All-append P [] ys h k = k
All-append P (x ∷ xs) ys (first, h) k = (first, All-append P xs ys h k)

pub Ran-both :
    (env : Env) (pane : Bytes) (calls : Calls) {calls' calls2 : Calls} (s : Bytes) {s' s2 : Bytes}
    → Ran env pane calls s calls' s'
    → Ran env pane calls' s' calls2 s2
    → Ran env pane calls s calls2 s2
Ran-both env pane calls s (new, e, to_pane, r) (more, e', to_pane', r') = (
  new ++ more,
  e' ∙ (ap (λ l. l ++ more) e ∙ append_assoc calls new more),
  All-append (λ entry. pane_of entry.0 ≡ pane) new more to_pane to_pane',
  replay-append env pane s new more ∙ (ap (λ l. replay env pane l more) r ∙ r'),
)

pub Ran-call :
    (env : Env) (pane : Bytes) (calls : Calls) (s : Bytes) (c : Call)
    → pane_of c ≡ pane
    → Ran env pane calls s (call env calls c).0 (if (call env calls c).1 then edit env s c else s)
unfolding call replay
Ran-call env pane calls s c e =
    ((c, env.herdr calls c) ∷ [], refl, (e, tt), rw e (rw (beq_refl pane) (ground arith)))

pub Ran-failed :
    (env : Env) (pane : Bytes) (calls : Calls) (s : Bytes) (c : Call)
    → pane_of c ≡ pane
    → (call env calls c).1 ≡ false
    → Ran env pane calls s (call env calls c).0 s
Ran-failed env pane calls s c to_pane fails =
    let same : (if (call env calls c).1 then edit env s c else s) ≡ s = rw fails refl in
    subst (λ t. Ran env pane calls s (call env calls c).0 t) same
      (Ran-call env pane calls s c to_pane)

pub Ran-sent :
    (env : Env) (pane : Bytes) (calls : Calls) (s s' : Bytes) (c : Call)
    → pane_of c ≡ pane
    → (call env calls c).1 ≡ true
    → edit env s c ≡ s'
    → Ran env pane calls s (call env calls c).0 s'
Ran-sent env pane calls s s' c to_pane sent edited =
    let same : (if (call env calls c).1 then edit env s c else s) ≡ s' = rw sent edited in
    subst (λ t. Ran env pane calls s (call env calls c).0 t) same
      (Ran-call env pane calls s c to_pane)

-- Calls to another pane leave the line as it is.
pub replay_other :
    (env : Env) (pane other s : Bytes) (calls : Calls)
    → beq pane other ≡ false
    → All (λ entry. pane_of entry.0 ≡ pane) calls
    → replay env other s calls ≡ s
unfolding replay
replay_other env pane other s [] differ to_pane = refl
replay_other env pane other s ((c, sent) ∷ calls) differ (first, to_pane) =
    rw (first, differ)
      (elim (Bool-cases sent) [
        | inl e ↦ rw e (replay_other env pane other s calls differ to_pane)
        | inr e ↦ rw e (replay_other env pane other s calls differ to_pane)
      ])

pub edit-typed_call :
    (env : Env) (s pane text : Bytes)
    → (edit env s (typed_call pane text) ≡ type_text s text)
      × (pane_of (typed_call pane text) ≡ pane)
edit-typed_call env s pane text = elim (Bool-cases (contains 10 text)) [
  | inl e ↦ rw e (refl, refl)
  | inr e ↦ rw e (refl, refl)
]

pub Ran-typed :
    (env : Env) (pane : Bytes) (calls : Calls) (s text : Bytes)
    → (send_typed_text env calls pane text).1 ≡ true
    → Ran env pane calls s (send_typed_text env calls pane text).0 (type_text s text)
unfolding send_typed_text
Ran-typed env pane calls s text sent =
    let (edited, to_pane) = edit-typed_call env s pane text in
    Ran-sent env pane calls s (type_text s text) (typed_call pane text) to_pane sent edited

pub Ran-untyped :
    (env : Env) (pane : Bytes) (calls : Calls) (s text : Bytes)
    → (send_typed_text env calls pane text).1 ≡ false
    → Ran env pane calls s (send_typed_text env calls pane text).0 s
unfolding send_typed_text
Ran-untyped env pane calls s text fails =
    Ran-failed env pane calls s (typed_call pane text) (edit-typed_call env s pane text).1 fails

pub take-append_self :
    {A : Type 0} (xs ys : List A) (m n : ℕ)
    → m ≡ length xs + n
    → take m (xs ++ ys) ≡ xs ++ take n ys
take-append_self [] ys m n e = let same : m ≡ n = omega (arith, e) in rw same refl
take-append_self (x ∷ xs) ys zero n e = absurd (omega (arith, e))
take-append_self (x ∷ xs) ys (suc m) n e =
    ap (◌∷◌ x) (take-append_self xs ys m n (omega (arith, e)))

take-last_start : (gs : List Bytes) → take (last_start gs) (concat gs) ≡ concat (init gs)
unfolding last_start concat init
take-last_start [] = refl
take-last_start (g ∷ []) = refl
take-last_start (g ∷ h ∷ gs) =
    take-append_self g (concat (h ∷ gs)) (length g + last_start (h ∷ gs)) (last_start (h ∷ gs)) refl
    ∙ ap (λ s. g ++ s) (take-last_start (h ∷ gs))

cut_last :
    (env : Env)
    → GraphemeLaws env.graphemes
    → (s : Bytes) → take (last_start (env.graphemes s)) s ≡ delete_last env s
cut_last env laws s =
    ap (take (last_start (env.graphemes s))) (sym (laws.concat-graphemes s))
    ∙ take-last_start (env.graphemes s)

-- The loop over the keys is the editor's.
pub press_keys_lem :
    (env : Env)
    → GraphemeLaws env.graphemes
    → (s : Bytes) (keys : List Bytes) → press_keys env s keys ≡ edit_keys env s keys
unfolding press_keys edit_keys
press_keys_lem env laws s [] = refl
press_keys_lem env laws s (key ∷ keys) = rw (cut_last env laws s) (
    press_keys_lem env laws
      (if eq_ignore_ascii_case key (codes "Backspace") then delete_last env s else s) keys)
