-- ===== src/Host/Bridge/Lines.antt =====
-- The shadow lines of the bridge, `input_lines`, against what Herdr was made to do.
use herdr_mobile.Base.{
  All, Bool, Bool-cases, Bytes, List, Option-cases, [], ap, append_nil, arith, beq, beq→eq, false,
  if◌then◌else◌, inl, inr, not, refl, subst, sym, ℕ, ◌&&◌, ◌++◌, ◌||◌, ◌∙◌, ◌∷◌, ◌≡◌,
}
use mathlib.Core.List.{append_assoc}
use herdr_mobile.Base.AssocMap.{Map, get, insert, get-insert}
use herdr_mobile.Host.Input.{Env, Calls, SendInput}
use herdr_mobile.Host.Input.Editor.{GraphemeLaws, replay, replay-append, replay_other, pane_of}
use herdr_mobile.Host.Bridge.{
  before_write, after_write, send_checked, Bridge, line_of, line_or_default, edit_line, write,
  send_input, bypasses, cancel_pending_inputs, interrupts, keys_of,
}
use herdr_mobile.Host.Bridge.Checks.{send_input-cases}
use herdr_mobile.Host.Bridge.Edits.{IsPlain, edit_by_lem}

module _ (env : Env) (laws : GraphemeLaws env.graphemes) where
  -- The shadow line of every pane follows the calls.
  abbrev pub Follows : Bridge → Bridge → Type 0
  Follows b b' =
      (new : Calls) × (b'.calls ≡ b.calls ++ new)
      × ((q : Bytes) → line_of b' q ≡ replay env q (line_of b q) new)

  line_of-insert :
      (p q : Bytes) (lines : Map Bytes) (line : Bytes)
      → line_or_default (get q (insert p line lines))
        ≡ (if beq p q then line else line_or_default (get q lines))
  line_of-insert p q lines line = rw (get-insert p q line lines) (ground arith)

  write_lem :
      (b : Bridge) (request : SendInput)
      → bypasses request ≡ false
      → IsPlain env laws request.line
      → Follows b (write env b request).0
  unfolding write edit_line
  write_lem b request tracked plain =
      let (new, e, to_pane, r) =
        edit_by_lem env laws b.calls request (line_of b request.pane_id) request.line plain in
      rw tracked
        (new, e, λ q. line_of-insert request.pane_id q b.input_lines _ ∙ each new to_pane r q)
    where
      each :
          {line : Bytes} (new : Calls)
          → All (λ entry. pane_of entry.0 ≡ request.pane_id) new
          → replay env request.pane_id (line_of b request.pane_id) new ≡ line
          → (q : Bytes)
          → (if beq request.pane_id q then line else line_of b q) ≡ replay env q (line_of b q) new
      each {line = line} new to_pane r q = elim (Bool-cases (beq request.pane_id q)) [
        | inl same ↦ rw same (
            subst (λ p. line ≡ replay env p (line_of b p) new) (beq→eq request.pane_id q same)
              (sym r))
        | inr differ ↦
            rw differ (sym (replay_other env request.pane_id q (line_of b q) new differ to_pane))
      ]

  Follows-refl : (b : Bridge) → Follows b b
  Follows-refl b = ([], sym (append_nil b.calls), λ q. unfold replay in refl)

  Follows-trans : (b b' b2 : Bridge) → Follows b b' → Follows b' b2 → Follows b b2
  Follows-trans b b' b2 (new, e, each) (more, e', each') = (
    new ++ more,
    e' ∙ (ap (λ l. l ++ more) e ∙ append_assoc b.calls new more),
    λ q.
        each' q
        ∙ (ap (λ l. replay env q l more) (each q)
            ∙ sym (replay-append env q (line_of b q) new more)),
  )

  same_before :
      (b b' b2 : Bridge)
      → b'.calls ≡ b.calls
      → b'.input_lines ≡ b.input_lines
      → Follows b' b2
      → Follows b b2
  same_before b b' b2 calls lines (new, e, each) = (
    new,
    e ∙ ap (λ l. l ++ new) calls,
    λ q. each q ∙ ap (λ lines. replay env q (line_or_default (get q lines)) new) lines,
  )

  same_after :
      (b b' b2 : Bridge)
      → b'.calls ≡ b2.calls
      → b'.input_lines ≡ b2.input_lines
      → Follows b b'
      → Follows b b2
  same_after b b' b2 calls lines (new, e, each) =
      (new, sym calls ∙ e, λ q. ap (λ lines. line_or_default (get q lines)) (sym lines) ∙ each q)

  cancel_same :
      (b : Bridge)
      → ((cancel_pending_inputs b).calls ≡ b.calls)
        × ((cancel_pending_inputs b).input_lines ≡ b.input_lines)
        × ((cancel_pending_inputs b).watched ≡ b.watched)
  unfolding cancel_pending_inputs
  cancel_same b = elim (Option-cases b.pending_input) [
    | inl e ↦ rw e (refl, refl, refl)
    | inr (p, e) ↦ rw e (refl, refl, refl)
  ]

  before_same :
      (b : Bridge) (request : SendInput)
      → ((before_write b request).calls ≡ b.calls)
        × ((before_write b request).input_lines ≡ b.input_lines)
  before_same b request =
      elim (Bool-cases (not (bypasses request) && interrupts (keys_of request))) [
        | inl e ↦ rw e ((cancel_same b).0, (cancel_same b).1)
        | inr e ↦ rw e (refl, refl)
      ]

  after_same :
      (written : Bridge × Bool × Bool) (now : ℕ)
      → (written.0.calls ≡ (after_write written now).calls)
        × (written.0.input_lines ≡ (after_write written now).input_lines)
  after_same (b, accepted, changed) now = elim (Bool-cases (accepted || changed)) [
    | inl e ↦ rw e (refl, refl)
    | inr e ↦ rw e (refl, refl)
  ]

  -- Every request that does not bypass the line and asks for no line with an ESC, whatever Herdr
  -- refuses of it: the shadow line of
  -- each pane is the old one edited by the calls that succeeded.
  pub send_input-Follows :
      (b : Bridge) (request : SendInput) (now : ℕ)
      → bypasses request ≡ false
      → IsPlain env laws request.line
      → Follows b (send_input env b request now).0
  unfolding send_checked
  send_input-Follows b request now tracked plain = elim (send_input-cases env b request now) [
    | inl (e, fails) ↦ rw fails (Follows-refl b)
    | inr passes ↦
        let b' = before_write b request in
        let written = write env b' request in
        rw passes (
          same_after b written.0 (after_write written now) (after_same written now).0
            (after_same written now).1
            (same_before b b' written.0 (before_same b request).0 (before_same b request).1
              (write_lem b' request tracked plain)))
  ]

  unfoldable pub run : Bridge → List (SendInput × ℕ) → Bridge
  run b [] = b
  run b ((request, now) ∷ requests) = run (send_input env b request now).0 requests

  -- Any requests of any panes, none of which bypasses the line, and none of which asks for a line
  -- with the character that starts a key sequence (ESC), and whatever calls Herdr refuses:
  -- afterwards the shadow line of every pane is exactly what an editor of graphemes shows that
  -- started with the old line and saw the calls to this pane that succeeded.
  pub line_of-run :
      (b : Bridge) (requests : List (SendInput × ℕ))
      → All (λ (request, now). (bypasses request ≡ false) × IsPlain env laws request.line) requests
      → Follows b (run b requests)
  unfolding run
  line_of-run b [] all_plain = Follows-refl b
  line_of-run b ((request, now) ∷ requests) ((tracked, plain), all_plain) =
      let b' = (send_input env b request now).0 in
      Follows-trans b b' (run b' requests) (send_input-Follows b request now tracked plain)
        (line_of-run b' requests all_plain)
