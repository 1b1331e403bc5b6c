-- ===== src/Host/Bridge/Edits.antt =====
-- What `forward_input` and `reconcile_line` leave in the shadow line of their pane.
use herdr_mobile.Base.{
  Bool, Bool-cases, Bytes, List, Option, Option-cases, false, if◌then◌else◌, inl, inr, none, refl,
  some, subst, ◌≡◌, ◌≢◌,
}
use herdr_mobile.Base.Strings.{contains}
use herdr_mobile.Host.Input.{
  pane_send_input, send_typed_text, Env, Calls, SendInput, call, forward_text, forward_keys,
  forward_input, reconcile_line, push_keys, Outcome, all_sent, send_failed, out_of_fuel,
}
use herdr_mobile.Host.Input.Editor.{
  GraphemeLaws, Ran, Ran-none, Ran-both, Ran-typed, Ran-untyped, Ran-sent, Ran-failed, press,
  press_keys_lem, type_text,
}
use herdr_mobile.Host.Input.Reconcile.{line_after, reconcile_line_lem}
use herdr_mobile.Host.Bridge.{edit_by, is_sent}

-- What a step leaves: the calls, the shadow and whether all succeeded.
abbrev Shadows : Env → Bytes → Calls → Bytes → Calls × Option Bytes × Bool → Type 0
Shadows env pane calls s (calls', shadow, sent) =
    (t : Bytes) × (shadow ≡ some t) × Ran env pane calls s calls' t

module _ (env : Env) (laws : GraphemeLaws env.graphemes) where
  push_keys_lem :
      (s : Bytes) (keys : List Bytes) → push_keys env (some s) keys ≡ some (press env s keys)
  push_keys_lem s keys = rw (press_keys_lem env laws s keys) refl

  forward_text_lem :
      (calls : Calls) (request : SendInput) (s : Bytes)
      → Shadows env request.pane_id calls s (forward_text env calls request (some s))
  unfolding forward_text
  forward_text_lem calls request s = elim (Option-cases request.text) [
    | inl e ↦ rw e (s, refl, Ran-none env request.pane_id calls s)
    | inr (text, e) ↦ elim (Bool-cases (send_typed_text env calls request.pane_id text).1) [
      | inl sent ↦
          rw (e, sent) (type_text s text, refl, Ran-typed env request.pane_id calls s text sent)
      | inr fails ↦ rw (e, fails) (s, refl, Ran-untyped env request.pane_id calls s text fails)
    ]
  ]

  forward_keys_lem :
      (calls : Calls) (request : SendInput) (s : Bytes)
      → Shadows env request.pane_id calls s (forward_keys env calls request (some s))
  unfolding forward_keys
  forward_keys_lem calls request s = elim (Option-cases request.keys) [
    | inl e ↦ rw e (s, refl, Ran-none env request.pane_id calls s)
    | inr (keys, e) ↦
        let c = pane_send_input request.pane_id none (some keys) in
        elim (Bool-cases (call env calls c).1) [
          | inl sent ↦
              rw (e, sent)
                (
                  press env s keys,
                  push_keys_lem s keys,
                  Ran-sent env request.pane_id calls s (press env s keys) c refl sent refl,
                )
          | inr fails ↦ rw (e, fails) (s, refl, Ran-failed env request.pane_id calls s c refl fails)
        ]
  ]

  forward_input_lem :
      (calls : Calls) (request : SendInput) (s : Bytes)
      → Shadows env request.pane_id calls s (forward_input env calls request (some s))
  unfolding forward_input
  forward_input_lem calls request s =
      let (t, e, ran) = forward_text_lem calls request s in
      let (u, e', ran') = forward_keys_lem (forward_text env calls request (some s)).0 request t in
      elim (Bool-cases (forward_text env calls request (some s)).2) [
        | inl sent ↦ rw (sent, e) (u, e', Ran-both env request.pane_id calls s ran ran')
        | inr fails ↦ rw (fails, e) (t, refl, ran)
      ]

  -- The request's line has no character that starts a key sequence.
  abbrev pub IsPlain : Option Bytes → Type 0
  IsPlain none = Unit
  IsPlain (some line) = contains 27 line ≡ false

  kept_lem :
      (o : Outcome) (old' line : Bytes)
      → o ≢ out_of_fuel
      → line_after o old' line ≡ (if is_sent o then line else old')
  kept_lem all_sent old' line h = refl
  kept_lem send_failed old' line h = refl
  kept_lem out_of_fuel old' line h = refl

  pub edit_by_lem :
      (calls : Calls) (request : SendInput) (old : Bytes) (line : Option Bytes)
      → IsPlain line
      → (let (calls', line', accepted) = edit_by env calls request old line in
          Ran env request.pane_id calls old calls' line')
  unfolding edit_by
  edit_by_lem calls request old none plain =
      let (t, e, ran) = forward_input_lem calls request old in rw e ran
  edit_by_lem calls request old (some line) plain =
      let (ran, ends) = reconcile_line_lem env laws request.pane_id calls old line plain in
      subst
        (Ran env request.pane_id calls old (reconcile_line env calls request.pane_id old line).0)
        (kept_lem _ _ line ends) ran
