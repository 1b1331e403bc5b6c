-- ===== src/Host/Watch/Typing.antt =====
-- `send_input` of input.rs leaves the watch as it is.
use herdr_mobile.Base.{
  Bool, Bool-cases, Option, Option-cases, ap, inl, inr, is_some, none, not, refl, some, subst, sym,
  ℕ, ◌&&◌, ◌||◌, ◌∙◌, ◌≡◌,
}
use herdr_mobile.Host.Scheduler.{PaneScheduler}
use herdr_mobile.Host.Input.{Env, SendInput}
use herdr_mobile.Host.Bridge.{
  Bridge, cancel_pending_inputs, before_write, after_write, write, restart, bypasses, send_input,
  send_checked, interrupts, keys_of,
}
use herdr_mobile.Host.Bridge.Checks.{send_input-cases}
use herdr_mobile.Host.Watch.{Hash, PaneFrame}
use herdr_mobile.Host.Watch.Shown.{Shows, IsShown}

-- Writing input changes neither the watch nor whether there is a scheduler.
abbrev Same : Bridge → Bridge → Type 0
Same b b' = (b'.watched ≡ b.watched) × (is_some b'.scheduler ≡ is_some b.scheduler)

before_write-Same : (b : Bridge) (request : SendInput) → Same b (before_write b request)
unfolding cancel_pending_inputs
before_write-Same b request =
    elim (Bool-cases (not (bypasses request) && interrupts (keys_of request))) [
      | inr e ↦ rw e (refl, refl)
      | inl e ↦ elim (Option-cases b.pending_input) [
        | inl e' ↦ rw (e, e') (refl, refl)
        | inr (p, e') ↦ rw (e, e') (refl, refl)
      ]
    ]

write-Same : (env : Env) (b : Bridge) (request : SendInput) → Same b (write env b request).0
unfolding write
write-Same env b request = elim (Bool-cases (bypasses request)) [
  | inl e ↦ rw e (refl, refl)
  | inr e ↦ rw e (refl, refl)
]

same_restart : (s : Option PaneScheduler) (now : ℕ) → is_some (restart s now) ≡ is_some s
same_restart none now = refl
same_restart (some s) now = refl

after_write-Same :
    (written : Bridge × Bool × Bool) (now : ℕ) → Same written.0 (after_write written now)
after_write-Same (b, accepted, changed) now = elim (Bool-cases (accepted || changed)) [
  | inl e ↦ rw e (refl, same_restart b.scheduler now)
  | inr e ↦ rw e (refl, refl)
]

pub send_input-IsShown :
    (hash : Hash) (env : Env) (b : Bridge) (request : SendInput) (now : ℕ) (last : Option PaneFrame)
    → IsShown hash b last
    → IsShown hash (send_input env b request now).0 last
unfolding send_checked
send_input-IsShown hash env b request now last shown = elim (send_input-cases env b request now) [
  | inl (e, fails) ↦ rw fails shown
  | inr passes ↦
      let b' = before_write b request in
      let written = write env b' request in
      let first = before_write-Same b request in
      let second = write-Same env b' request in
      let third = after_write-Same written now in
      rw passes (
        ap is_some (third.0 ∙ (second.0 ∙ first.0))
            ∙ (shown.0 ∙ sym (third.1 ∙ (second.1 ∙ first.1))),
        subst (λ watched. Shows hash watched last) (sym (third.0 ∙ (second.0 ∙ first.0))) shown.1,
      )
]
