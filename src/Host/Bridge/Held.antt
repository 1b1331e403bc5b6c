-- ===== src/Host/Bridge/Held.antt =====
-- The final replies that a bridge of held_input.rs owes, and what `send_input` does to them.
use herdr_mobile.Base.{
  Bool, Bool-cases, Bytes, List, Option, Option-cases, Result, [], arith, beq, false, if◌then◌else◌,
  inl, inr, none, not, refl, some, true, ℕ, ◌&&◌, ◌++◌, ◌+◌, ◌||◌, ◌∙◌, ◌∷◌, ◌≡◌,
}
use herdr_mobile.Host.Input.{Env, SendInput, SendInputAck, WatchError}
use herdr_mobile.Host.Bridge.{
  PendingInput, Bridge, input_ack, cancel_pending_inputs, before_write, after_write, write,
  bypasses, send_checked, send_input, keys_of, interrupts,
}
use herdr_mobile.Host.Bridge.Deferred.{unwrap_or}
use herdr_mobile.Host.Bridge.Checks.{send_input-cases}

abbrev pub same_corr : Option Bytes → Option Bytes → Bool
same_corr none none = true
same_corr none (some d) = false
same_corr (some c) none = false
same_corr (some c) (some d) = beq c d

abbrev pub count_if : Bool → ℕ
count_if counts = if counts then 1 else 0

-- The final replies with a correlation.
unfoldable pub finals : Option Bytes → List (SendInputAck × Option Bytes) → ℕ
finals c [] = 0
finals c ((ack, d) ∷ replies) = count_if (not ack.queued && same_corr c d) + finals c replies

-- The final replies that a bridge owes or holds ready for a correlation.
abbrev pub owed_pending : Option Bytes → Option PendingInput → ℕ
owed_pending c none = 0
owed_pending c (some p) = count_if (same_corr c p.corr)

abbrev pub owed : Option Bytes → Bridge → ℕ
owed c b = finals c b.input_replies + owed_pending c b.pending_input

pub finals-append :
    (c : Option Bytes) (r s : List (SendInputAck × Option Bytes))
    → finals c (r ++ s) ≡ finals c r + finals c s
unfolding finals
finals-append c [] s = omega arith
finals-append c ((ack, d) ∷ r) s = omega (arith, finals-append c r s)

-- One reply more.
pub finals_push :
    (c : Option Bytes) (r : List (SendInputAck × Option Bytes)) (ack : SendInputAck)
    (d : Option Bytes)
    → finals c (r ++ (ack, d) ∷ []) ≡ finals c r + count_if (not ack.queued && same_corr c d)
unfolding finals
finals_push c r ack d = omega (arith, finals-append c r ((ack, d) ∷ []))

pub owed-cancel_pending_inputs :
    (c : Option Bytes) (b : Bridge)
    → (owed c (cancel_pending_inputs b) ≡ owed c b)
      × ((cancel_pending_inputs b).pending_input ≡ none)
unfolding cancel_pending_inputs input_ack
owed-cancel_pending_inputs c b = elim (Option-cases b.pending_input) [
  | inl e ↦ rw e (refl, refl)
  | inr (p, e) ↦
      rw e (
        omega (arith, finals_push c b.input_replies (input_ack p.pane_id false false) p.corr),
        refl,
      )
]

-- A call that owes nothing new and whose reply is final.
abbrev pub Keeps : Option Bytes → Bytes → Bridge → Bridge × Result WatchError SendInputAck → Type 0
Keeps c pane_id b (b', result) =
    (owed c b' ≡ owed c b) × ((unwrap_or result (input_ack pane_id false false)).queued ≡ false)

owed-write :
    (c : Option Bytes) (env : Env) (b : Bridge) (request : SendInput)
    → owed c (write env b request).0 ≡ owed c b
unfolding write
owed-write c env b request = elim (Bool-cases (bypasses request)) [
  | inl e ↦ rw e refl
  | inr e ↦ rw e refl
]

owed-before_write :
    (c : Option Bytes) (b : Bridge) (request : SendInput)
    → owed c (before_write b request) ≡ owed c b
owed-before_write c b request =
    elim (Bool-cases (not (bypasses request) && interrupts (keys_of request))) [
      | inl e ↦ rw e (owed-cancel_pending_inputs c b).0
      | inr e ↦ rw e refl
    ]

owed-after_write :
    (c : Option Bytes) (written : Bridge × Bool × Bool) (now : ℕ)
    → owed c (after_write written now) ≡ owed c written.0
owed-after_write c (b, accepted, changed) now = elim (Bool-cases (accepted || changed)) [
  | inl e ↦ rw e refl
  | inr e ↦ rw e refl
]

pub send_input-Keeps :
    (c : Option Bytes) (env : Env) (b : Bridge) (request : SendInput) (now : ℕ)
    → Keeps c request.pane_id b (send_input env b request now)
unfolding send_checked input_ack
send_input-Keeps c env b request now = elim (send_input-cases env b request now) [
  | inl (e, fails) ↦ rw fails (refl, refl)
  | inr passes ↦ rw passes (
    owed-after_write c (write env (before_write b request) request) now
        ∙ (owed-write c env (before_write b request) request ∙ owed-before_write c b request),
    refl,
  )
]
