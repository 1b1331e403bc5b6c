-- ===== src/Host/Bridge/Checks.antt =====
-- The checks before `send_input` of input.rs writes.
use herdr_mobile.Base.{Result-cases, err, inl, inr, refl, ℕ, ◌>>◌, ◌≡◌, ◌⊎◌}
use herdr_mobile.Host.Input.{Env, SendInput, WatchError}
use herdr_mobile.Host.Bridge.{
  Bridge, require_watched, validate_send_input, send_checked, send_input,
}

pub send_input-cases :
    (env : Env) (b : Bridge) (request : SendInput) (now : ℕ)
    → ((e : WatchError) × (send_input env b request now ≡ (b, err e)))
      ⊎ (send_input env b request now ≡ send_checked env b request now)
unfolding send_input
send_input-cases env b request now =
    elim (Result-cases (require_watched b request.pane_id >> validate_send_input request)) [
      | inr (e, fails) ↦ inl (e, rw (fails, send_input) refl)
      | inl (passed, passes) ↦ inr (rw (passes, send_input) refl)
    ]
