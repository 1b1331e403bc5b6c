-- ===== src/Host/Input/Reconcile.antt =====
-- `reconcile_line` of input.rs: it brings the line of a pane to the line that is asked for.
use herdr_mobile.Base.{
  Bool-cases, Bytes, List, [], ap, append_nil, arith, beq, beq→eq, drop, false, inl, inr, is_empty,
  length, length-drop, min, refl, subst, suc, sym, take, true, zero, ℕ, ◌++◌, ◌+◌, ◌∙◌, ◌∷◌, ◌≡◌,
  ◌≢◌,
}
use mathlib.Core.List.{append_assoc}
use herdr_mobile.Base.Strings.{contains}
use herdr_mobile.Host.Input.{
  Calls, Env, send_typed_text, common_prefix, sum_lengths, is_key_sequence, Outcome, all_sent,
  send_failed, out_of_fuel, send_tail, reconcile_line,
}
use herdr_mobile.Host.Input.Editor.{
  GraphemeLaws, concat, type_text, Ran, Ran-both, Ran-typed, Ran-untyped,
}
use herdr_mobile.Host.Input.Delete.{keep, IsCut, delete_loop_lem}

-- What both texts begin with, as a number of graphemes.
abbrev IsCommon : List Bytes → List Bytes → ℕ → Type 0
IsCommon gs hs bytes =
    (k m : ℕ) × (k + m ≡ length gs) × (take k gs ≡ take k hs) × (bytes ≡ sum_lengths (take k gs))

common_prefix_lem : (gs hs : List Bytes) → IsCommon gs hs (common_prefix gs hs)
unfolding common_prefix
common_prefix_lem [] hs = (0, 0, refl, refl, refl)
common_prefix_lem (g ∷ gs) [] = (0, length (g ∷ gs), omega arith, refl, refl)
common_prefix_lem (g ∷ gs) (h ∷ hs) = elim (Bool-cases (beq g h)) [
  | inr differ ↦ rw differ (0, length (g ∷ gs), omega arith, refl, refl)
  | inl same ↦
      let (k, m, count, front, bytes) = common_prefix_lem gs hs in
      rw same (
        suc k,
        m,
        omega (arith, count),
        rw (beq→eq g h same) (ap (◌∷◌ h) front),
        ap (λ n. length g + n) bytes,
      )
]

drop-append_self :
    {A : Type 0} (xs ys : List A) (m n : ℕ) → m ≡ length xs + n → drop m (xs ++ ys) ≡ drop n ys
drop-append_self [] ys m n e = let same : m ≡ n = omega (arith, e) in rw same refl
drop-append_self (x ∷ xs) ys zero n e = absurd (omega (arith, e))
drop-append_self (x ∷ xs) ys (suc m) n e = drop-append_self xs ys m n (omega (arith, e))

drop-concat :
    (gs : List Bytes) (k n : ℕ)
    → n ≡ sum_lengths (take k gs)
    → drop n (concat gs) ≡ concat (drop k gs)
unfolding concat
drop-concat gs zero n e = rw e refl
drop-concat [] (suc k) n e = rw e refl
drop-concat (g ∷ gs) (suc k) n e =
    drop-append_self g (concat gs) n (sum_lengths (take k gs)) e
    ∙ drop-concat gs k (sum_lengths (take k gs)) refl

contains-drop : (c n : ℕ) (s : Bytes) → contains c s ≡ false → contains c (drop n s) ≡ false
contains-drop c zero s h = h
contains-drop c (suc n) [] h = h
contains-drop c (suc n) (x ∷ s) h = ground (arith, contains-drop c n s)

no_sequence : (s : Bytes) → contains 27 s ≡ false → is_key_sequence s ≡ false
unfolding beq
no_sequence [] h = refl
no_sequence (x ∷ s) h = ground arith

concat_parts : (gs : List Bytes) (k : ℕ) → concat (take k gs) ++ concat (drop k gs) ≡ concat gs
unfolding concat
concat_parts gs zero = refl
concat_parts [] (suc k) = refl
concat_parts (g ∷ gs) (suc k) =
    append_assoc g (concat (take k gs)) (concat (drop k gs)) ∙ ap (λ s. g ++ s) (concat_parts gs k)

-- The line that is kept when the calls end.
abbrev pub line_after : Outcome → Bytes → Bytes → Bytes
line_after all_sent old line = line
line_after send_failed old line = old
line_after out_of_fuel old line = old

module _ (env : Env) (laws : GraphemeLaws env.graphemes) (pane : Bytes) where
  send_tail_lem :
      (calls calls1 : Calls) (k : ℕ) (old old1 line tail : Bytes) (o : Outcome)
      → Ran env pane calls old calls1 old1
      → IsCut env laws k old old1 o
      → contains 27 tail ≡ false
      → keep env laws k old ++ tail ≡ line
      → (let (calls', old', o') = send_tail env (calls1, old1, o) pane tail in
          Ran env pane calls old calls' (line_after o' old' line) × (o' ≢ out_of_fuel))
  unfolding send_tail
  send_tail_lem calls calls1 k old old1 line tail out_of_fuel ran cut plain whole = absurd cut
  send_tail_lem calls calls1 k old old1 line tail send_failed ran cut plain whole = (ran, λ e. cc e)
  send_tail_lem calls calls1 k old old1 line tail all_sent ran cut plain whole =
      elim (Bool-cases (is_empty tail)) [
        | inl e ↦ rw e (
          subst (Ran env pane calls old calls1)
              (cut
                ∙ (sym (append_nil (keep env laws k old))
                    ∙ (ap (λ t. keep env laws k old ++ t) (sym (empty tail e)) ∙ whole)))
              ran,
          λ x. cc x,
        )
        | inr e ↦ elim (Bool-cases (send_typed_text env calls1 pane tail).1) [
          | inl sent ↦
              rw (e, sent)
                (
                  Ran-both env pane calls old ran (
                      subst (Ran env pane calls1 old1 (send_typed_text env calls1 pane tail).0)
                        (typed tail plain ∙ (ap (λ t. t ++ tail) cut ∙ whole))
                        (Ran-typed env pane calls1 old1 tail sent)),
                  λ x. cc x,
                )
          | inr fails ↦
              rw (e, fails)
                (
                  Ran-both env pane calls old ran (Ran-untyped env pane calls1 old1 tail fails),
                  λ x. cc x,
                )
        ]
      ]
    where
      empty : (t : Bytes) → is_empty t ≡ true → t ≡ []
      empty [] h = refl
      empty (x ∷ t) h = absurd (cc h)

      typed : (t : Bytes) → contains 27 t ≡ false → type_text old1 t ≡ old1 ++ t
      typed t h = rw (no_sequence t h) refl

  -- Whatever calls Herdr refuses, for a line without the character that starts a key sequence: the
  -- calls that succeed, replayed on an editor of graphemes with the old line, give exactly the line
  -- that is asked for when all calls succeed, and the line that is kept otherwise; no call goes to
  -- another pane, and the loop of Backspaces ends.
  pub reconcile_line_lem :
      (calls : Calls) (old line : Bytes)
      → contains 27 line ≡ false
      → (let (calls', old', o) = reconcile_line env calls pane old line in
          Ran env pane calls old calls' (line_after o old' line) × (o ≢ out_of_fuel))
  unfolding reconcile_line
  reconcile_line_lem calls old line plain =
      let gs = env.graphemes old in
      let hs = env.graphemes line in
      let (k, m, count, front, bytes) = common_prefix_lem gs hs in
      let prefix = common_prefix gs hs in
      let back : drop prefix old ≡ concat (drop k gs) =
        ap (drop prefix) (sym (laws.concat-graphemes old)) ∙ drop-concat gs k prefix bytes in
      let tail : drop prefix line ≡ concat (drop k hs) =
        ap (drop prefix) (sym (laws.concat-graphemes line))
        ∙ drop-concat hs k prefix (bytes ∙ ap sum_lengths front) in
      let remove = length (env.graphemes (drop prefix old)) in
      let removed : remove ≡ m =
        rw back (rw (laws.back k old) (omega (arith, length-drop k gs, count))) in
      let (ran, cut) =
        delete_loop_lem env laws remove calls pane (min remove 64) remove k old (omega arith)
          (ground arith) (omega (arith, removed, count)) in
      send_tail_lem calls _ k old _ line (drop prefix line) _ ran cut
        (contains-drop 27 prefix line plain)
        (ap (λ t. keep env laws k old ++ t) tail
          ∙ (ap (λ f. concat f ++ concat (drop k hs)) front
              ∙ (concat_parts hs k ∙ laws.concat-graphemes line)))
