-- ===== src/Host/Input/Delete.antt =====
-- The loop of `reconcile_line` in input.rs that takes graphemes off the end of the line.
use herdr_mobile.Base.{
  ==_iff, Bool-cases, Bytes, List, [], any, ap, arith, beq, false, if◌then◌else◌, inl, inr, length,
  length-append, length-take, min, none, refl, some, subst, suc, sym, take, true, zero, ℕ, ◌++◌,
  ◌+◌, ◌-◌, ◌==◌, ◌∙◌, ◌∷◌, ◌≡◌, ◌≤◌, ◌⊎◌,
}
use herdr_mobile.Host.Input.{
  pane_send_input, Calls, Env, call, is_submit, sum_lengths, reverse, repeat, backspaces,
  truncate_last, Outcome, all_sent, send_failed, out_of_fuel, delete_loop,
}
use herdr_mobile.Host.Input.Editor.{
  GraphemeLaws, concat, init, edit, edit_keys, press, Ran, Ran-none, Ran-both, Ran-call, Ran-failed,
  take-append_self,
}

length-reverse : (gs : List Bytes) → length (reverse gs) ≡ length gs
unfolding reverse
length-reverse [] = refl
length-reverse (g ∷ gs) = omega (arith, length-append (reverse gs) (g ∷ []), length-reverse gs)

sum-append : (gs hs : List Bytes) → sum_lengths (gs ++ hs) ≡ sum_lengths gs + sum_lengths hs
sum-append [] hs = omega arith
sum-append (g ∷ gs) hs = omega (arith, sum-append gs hs)

take_within : {A : Type 0} (n : ℕ) (xs ys : List A) → n ≤ length xs → take n (xs ++ ys) ≡ take n xs
take_within zero xs ys h = refl
take_within (suc n) [] ys h = absurd (omega arith)
take_within (suc n) (x ∷ xs) ys h = ap (◌∷◌ x) (take_within n xs ys (omega arith))

take_all : {A : Type 0} (n : ℕ) (xs : List A) → length xs ≤ n → take n xs ≡ xs
take_all zero [] h = refl
take_all zero (x ∷ xs) h = absurd (omega arith)
take_all (suc n) [] h = refl
take_all (suc n) (x ∷ xs) h = ap (◌∷◌ x) (take_all n xs (omega arith))

pub take-take : {A : Type 0} (m n : ℕ) (xs : List A) → m ≤ n → take m (take n xs) ≡ take m xs
take-take zero n xs h = refl
take-take (suc m) zero xs h = absurd (omega arith)
take-take (suc m) (suc n) [] h = refl
take-take (suc m) (suc n) (x ∷ xs) h = ap (◌∷◌ x) (take-take m n xs (omega arith))

sum-reverse : (gs : List Bytes) → sum_lengths (reverse gs) ≡ sum_lengths gs
unfolding reverse
sum-reverse [] = refl
sum-reverse (g ∷ gs) = omega (arith, sum-append (reverse gs) (g ∷ []), sum-reverse gs)

-- The last graphemes and the others make up the text.
sum_parts :
    (gs : List Bytes) (k m : ℕ)
    → k + m ≡ length gs
    → sum_lengths (take k (reverse gs)) + sum_lengths (take m gs) ≡ sum_lengths gs
unfolding reverse
sum_parts gs k zero e =
    rw (take_all k (reverse gs) (omega (arith, e, length-reverse gs)))
      (omega (arith, sum-reverse gs))
sum_parts [] k (suc m) e = absurd (omega (arith, e))
sum_parts (g ∷ gs) k (suc m) e =
    rw (take_within k (reverse gs) (g ∷ []) (omega (arith, e, length-reverse gs)))
      (omega (arith, sum_parts gs k m (omega (arith, e))))

pub take-concat :
    (gs : List Bytes) (m n : ℕ)
    → n ≡ sum_lengths (take m gs)
    → take n (concat gs) ≡ concat (take m gs)
unfolding concat
take-concat gs zero n e = rw e refl
take-concat [] (suc m) n e = rw e refl
take-concat (g ∷ gs) (suc m) n e =
    take-append_self g (concat gs) n (sum_lengths (take m gs)) e
    ∙ ap (λ s. g ++ s) (take-concat gs m (sum_lengths (take m gs)) refl)

length-concat : (gs : List Bytes) → length (concat gs) ≡ sum_lengths gs
unfolding concat
length-concat [] = refl
length-concat (g ∷ gs) = omega (arith, length-append g (concat gs), length-concat gs)

module _ (env : Env) (laws : GraphemeLaws env.graphemes) where
  -- The first graphemes of a line.
  abbrev pub keep : ℕ → Bytes → Bytes
  keep n s = concat (take n (env.graphemes s))

  keep-keep : (m n : ℕ) (s : Bytes) → m ≤ n → keep m (keep n s) ≡ keep m s
  keep-keep m n s h = rw (laws.front n s) (ap concat (take-take m n (env.graphemes s) h))

  pub truncate_last_lem :
      (count m : ℕ) (s : Bytes)
      → count + m ≡ length (env.graphemes s)
      → truncate_last env count s ≡ keep m s
  unfolding truncate_last
  truncate_last_lem count m s e =
      ap (take (length s - sum_lengths (take count (reverse (env.graphemes s)))))
        (sym (laws.concat-graphemes s))
      ∙ take-concat (env.graphemes s) m
          (length s - sum_lengths (take count (reverse (env.graphemes s))))
          (omega (
            arith,
            sum_parts (env.graphemes s) count m e,
            length-concat (env.graphemes s),
            ap length (laws.concat-graphemes s),
          ))

  keep_all : (n : ℕ) (s : Bytes) → n ≡ length (env.graphemes s) → keep n s ≡ s
  keep_all n s e =
      ap concat (take_all n (env.graphemes s) (omega (arith, e))) ∙ laws.concat-graphemes s

  length-keep :
      (n : ℕ) (s : Bytes) → n ≤ length (env.graphemes s) → length (env.graphemes (keep n s)) ≡ n
  length-keep n s h = rw (laws.front n s) (omega (arith, length-take n (env.graphemes s)))

  init-take : (gs : List Bytes) (n : ℕ) → suc n ≡ length gs → init gs ≡ take n gs
  unfolding init
  init-take [] n e = absurd (omega (arith, e))
  init-take (g ∷ []) n e = let none_left : n ≡ 0 = omega (arith, e) in rw none_left refl
  init-take (g ∷ h ∷ gs) zero e = absurd (omega (arith, e))
  init-take (g ∷ h ∷ gs) (suc n) e = ap (◌∷◌ g) (init-take (h ∷ gs) n (omega (arith, e)))

  -- Backspace as often as a count deletes as many graphemes.
  edit-repeat :
      (count m : ℕ) (s : Bytes)
      → count + m ≡ length (env.graphemes s)
      → edit_keys env s (backspaces count) ≡ keep m s
  unfolding edit_keys repeat beq concat
  edit-repeat zero m s e = sym (keep_all m s (omega (arith, e)))
  edit-repeat (suc count) m s e =
      ap (λ t. edit_keys env t (backspaces count))
        (ap concat (init-take (env.graphemes s) (count + m) (omega (arith, e))))
      ∙ (edit-repeat count m (keep (count + m) s)
            (sym (length-keep (count + m) s (omega (arith, e))))
          ∙ keep-keep m (count + m) s (omega arith))

  no_submit : (count : ℕ) → any is_submit (backspaces count) ≡ false
  unfolding repeat beq
  no_submit zero = refl
  no_submit (suc count) = no_submit count

  press-backspaces :
      (count m : ℕ) (s : Bytes)
      → count + m ≡ length (env.graphemes s)
      → press env s (backspaces count) ≡ keep m s
  press-backspaces count m s e = rw (no_submit count) (edit-repeat count m s e)

  -- How the loop ends: the line is cut to the graphemes that stay, unless a call failed.
  abbrev pub IsCut : ℕ → Bytes → Bytes → Outcome → Type 0
  IsCut m old old' all_sent = old' ≡ keep m old
  IsCut m old old' send_failed = Unit
  IsCut m old old' out_of_fuel = ⊥

  IsCut-further :
      (m n : ℕ) (old between old' : Bytes) (o : Outcome)
      → m ≤ n
      → between ≡ keep n old
      → IsCut m between old' o
      → IsCut m old old' o
  IsCut-further m n old between old' all_sent h e cut = cut ∙ (ap (keep m) e ∙ keep-keep m n old h)
  IsCut-further m n old between old' send_failed h e cut = tt
  IsCut-further m n old between old' out_of_fuel h e cut = cut

  -- One call of the loop that succeeds.
  Ran-backspaces :
      (calls : Calls) (pane : Bytes) (count m : ℕ) (old : Bytes)
      → count + m ≡ length (env.graphemes old)
      → (let c = pane_send_input pane none (some (backspaces count)) in
          (call env calls c).1 ≡ true
          → Ran env pane calls old (call env calls c).0 (truncate_last env count old))
  Ran-backspaces calls pane count m old e sent =
      let c = pane_send_input pane none (some (backspaces count)) in
      let edited : (if (call env calls c).1 then edit env old c else old)
          ≡ truncate_last env count old =
        rw sent (press-backspaces count m old e ∙ sym (truncate_last_lem count m old e)) in
      subst (λ t. Ran env pane calls old (call env calls c).0 t) edited
        (Ran-call env pane calls old c refl)

  pub delete_loop_lem :
      (fuel : ℕ) (calls : Calls) (pane : Bytes) (limit remaining m : ℕ) (old : Bytes)
      → remaining ≤ fuel
      → (remaining ≡ 0) ⊎ (1 ≤ limit)
      → remaining + m ≡ length (env.graphemes old)
      → (let (calls', old', outcome) = delete_loop fuel env calls pane limit remaining old in
          Ran env pane calls old calls' old' × IsCut m old old' outcome)
  unfolding delete_loop
  delete_loop_lem zero calls pane limit remaining m old enough some_keys e =
      let none_left : remaining ≡ 0 = omega arith in
      rw none_left (Ran-none env pane calls old, sym (keep_all m old (omega (arith, e))))
  delete_loop_lem (suc fuel) calls pane limit remaining m old enough some_keys e =
      let count = min remaining limit in
      let c = pane_send_input pane none (some (backspaces count)) in
      let left = remaining - count in
      let cut = truncate_last env count old in
      let kept : cut ≡ keep (left + m) old =
        truncate_last_lem count (left + m) old (omega (arith, e)) in
      elim (Bool-cases (remaining == 0)) [
        | inl done ↦ rw done (
          Ran-none env pane calls old,
          sym (keep_all m old (omega (arith, e, (==_iff remaining 0).0 done))),
        )
        | inr more ↦ elim (Bool-cases (call env calls c).1) [
          | inr fails ↦ rw (more, fails) (Ran-failed env pane calls old c refl fails, tt)
          | inl sent ↦
              let (rest, ends) =
                delete_loop_lem fuel (call env calls c).0 pane limit left m cut
                  (ground (arith, more)) (inr (ground (arith, more)))
                  (rw kept (sym (length-keep (left + m) old (omega (arith, e))))) in
              rw (more, sent)
                (
                  Ran-both env pane calls old
                      (Ran-backspaces calls pane count (left + m) old (omega (arith, e)) sent) rest,
                  IsCut-further m (left + m) old cut _ _ (omega arith) kept ends,
                )
        ]
      ]
