-- ===== src/Host/Bridge/Settled.antt =====
-- What each handler of held_input.rs owes its request: a final reply, or one when the submit is released.
use herdr_mobile.Base.{
  Bool, Bool-cases, Bytes, Option, Result, Result-cases, [], ap, arith, beq, err, false, inl, inr,
  is_some, is_some_and, none, not, refl, some, ℕ, ◌&&◌, ◌+◌, ◌||◌, ◌≡◌,
}
use herdr_mobile.Host.Input.{
  Env, SendInput, SendInputAck, Defer, until_idle, cancel, WatchError, invalid_input,
}
use herdr_mobile.Host.Bridge.{
  PendingInput, Bridge, input_ack, cancel_pending_inputs, bypasses, send_input, require_watched,
  validate_send_input,
}
use herdr_mobile.Host.Bridge.Deferred.{
  Snapshot, is_working, is_pending_on, is_malformed, undeferred, cancel_deferred, hold,
  until_idle_deferred, by_defer, dispatch, unwrap_or, take_input_replies, handle_deferred_input,
  held_request, release_pending, release_on, release_pending_input,
}
use herdr_mobile.Host.Bridge.Held.{
  same_corr, count_if, finals, owed_pending, owed, finals_push, owed-cancel_pending_inputs, Keeps,
  send_input-Keeps,
}

-- A call whose reply is owed from then on, or is final.
abbrev Settles :
    Option Bytes → Option Bytes → Bytes → Bridge → Bridge × Result WatchError SendInputAck → Type 0
Settles c corr pane_id b (b', result) =
    owed c b'
      + count_if (not (unwrap_or result (input_ack pane_id false false)).queued && same_corr c corr)
    ≡ owed c b + count_if (same_corr c corr)

Keeps→Settles :
    (c corr : Option Bytes) (pane_id : Bytes) (b : Bridge)
    (r : Bridge × Result WatchError SendInputAck)
    → Keeps c pane_id b r
    → Settles c corr pane_id b r
Keeps→Settles c corr pane_id b (b', result) (same, final) = rw (same, final) refl

-- A handler after cancelling is as one before.
Settles_before :
    (c corr : Option Bytes) (pane_id : Bytes) (b b' : Bridge)
    (r : Bridge × Result WatchError SendInputAck)
    → owed c b' ≡ owed c b
    → Settles c corr pane_id b' r
    → Settles c corr pane_id b r
Settles_before c corr pane_id b b' (b2, result) same h = rw⁻¹ same h

hold-Settles :
    (c corr : Option Bytes) (env : Env) (b : Bridge) (request : SendInput) (snapshot : Snapshot)
    (now : ℕ)
    → Settles c corr request.pane_id b (hold env b request corr snapshot now)
unfolding hold input_ack
hold-Settles c corr env b request none now = refl
hold-Settles c corr env b request (some agents) now =
    let b' = cancel_pending_inputs b in
    let (same, none_pending) = owed-cancel_pending_inputs c b in
    elim (Bool-cases (is_working agents request.pane_id)) [
      | inl e ↦ rw e (omega (arith, same, ap (owed_pending c) none_pending))
      | inr e ↦ rw e (
          Settles_before c corr request.pane_id b b' (send_input env b' (undeferred request) now)
            same
            (Keeps→Settles c corr request.pane_id b' (send_input env b' (undeferred request) now)
              (send_input-Keeps c env b' (undeferred request) now)))
    ]

refused :
    (c corr : Option Bytes) (pane_id : Bytes) (b : Bridge) (e : WatchError)
    → Settles c corr pane_id b (b, err e)
unfolding input_ack
refused c corr pane_id b e = refl

until_idle_deferred-Settles :
    (c corr : Option Bytes) (env : Env) (b : Bridge) (request : SendInput) (snapshot : Snapshot)
    (now : ℕ)
    → Settles c corr request.pane_id b (until_idle_deferred env b request corr snapshot now)
unfolding until_idle_deferred
until_idle_deferred-Settles c corr env b request snapshot now =
    elim (Result-cases (require_watched b request.pane_id)) [
      | inr (e, fails) ↦ rw (fails, until_idle_deferred) (refused c corr request.pane_id b e)
      | inl (passed, passes) ↦ elim (Bool-cases (is_malformed request)) [
        | inl e ↦
            rw (passes, e, until_idle_deferred) (refused c corr request.pane_id b invalid_input)
        | inr fine ↦ elim (Result-cases (validate_send_input (undeferred request))) [
          | inr (e, fails) ↦
              rw (passes, fine, fails, until_idle_deferred) (refused c corr request.pane_id b e)
          | inl (valid, is_valid) ↦
              rw (passes, fine, is_valid, until_idle_deferred)
                (hold-Settles c corr env b request snapshot now)
        ]
      ]
    ]

cancel_deferred-Keeps :
    (c : Option Bytes) (b : Bridge) (request : SendInput)
    → Keeps c request.pane_id b (cancel_deferred b request)
unfolding cancel_deferred input_ack
cancel_deferred-Keeps c b request =
    elim (Bool-cases (is_some request.line || (is_some request.text || is_some request.keys))) [
      | inl e ↦ rw e (refl, refl)
      | inr e ↦ elim (Bool-cases (is_pending_on b.pending_input request.pane_id)) [
        | inl pending ↦ rw (e, pending) ((owed-cancel_pending_inputs c b).0, refl)
        | inr other ↦ rw (e, other) (refl, refl)
      ]
    ]

by_defer-Settles :
    (c corr : Option Bytes) (env : Env) (b : Bridge) (request : SendInput) (snapshot : Snapshot)
    (now : ℕ) (d : Option Defer)
    → Settles c corr request.pane_id b (by_defer env b request corr snapshot now d)
unfolding by_defer
by_defer-Settles c corr env b request snapshot now none =
    Keeps→Settles c corr request.pane_id b (send_input env b request now)
      (send_input-Keeps c env b request now)
by_defer-Settles c corr env b request snapshot now (some cancel) =
    Keeps→Settles c corr request.pane_id b (cancel_deferred b request)
      (cancel_deferred-Keeps c b request)
by_defer-Settles c corr env b request snapshot now (some until_idle) =
    until_idle_deferred-Settles c corr env b request snapshot now

dispatch-Settles :
    (c corr : Option Bytes) (env : Env) (b : Bridge) (request : SendInput) (snapshot : Snapshot)
    (now : ℕ)
    → Settles c corr request.pane_id b (dispatch env b request corr snapshot now)
unfolding dispatch
dispatch-Settles c corr env b request snapshot now = elim (Bool-cases (bypasses request)) [
  | inl e ↦
      rw (e, dispatch)
        (Keeps→Settles c corr request.pane_id b (send_input env b request now)
          (send_input-Keeps c env b request now))
  | inr e ↦ rw (e, dispatch) (by_defer-Settles c corr env b request snapshot now request.defer)
]

-- One request more is one final reply more, given out or owed.
pub handle-owed :
    (c corr : Option Bytes) (env : Env) (b : Bridge) (request : SendInput) (snapshot : Snapshot)
    (now : ℕ)
    → (let (b', replies) = handle_deferred_input env b request corr snapshot now in
        finals c replies + owed c b' ≡ owed c b + count_if (same_corr c corr))
unfolding handle_deferred_input take_input_replies
handle-owed c corr env b request snapshot now =
    let (b', result) = dispatch env b request corr snapshot now in
    let reply = unwrap_or result (input_ack request.pane_id false false) in
    let settled = dispatch-Settles c corr env b request snapshot now in
    let pushed = finals_push c b'.input_replies reply corr in
    let none_left : finals c [] ≡ 0 = unfold finals in refl in
    omega (arith, settled, pushed, none_left)

owed-release_pending :
    (c : Option Bytes) (env : Env) (b : Bridge) (p : PendingInput) (now : ℕ)
    → b.pending_input ≡ some p
    → owed c (release_pending env b p now) ≡ owed c b
unfolding release_pending
owed-release_pending c env b p now e =
    let freed = record b { pending_input = none } in
    let (b', result) = send_input env freed (held_request p) now in
    let reply = unwrap_or result (input_ack p.pane_id false false) in
    let (same, final) = send_input-Keeps c env freed (held_request p) now in
    let counted : count_if (not reply.queued && same_corr c p.corr)
        ≡ count_if (same_corr c p.corr) =
      rw final refl in
    omega (arith, same, counted, finals_push c b'.input_replies reply p.corr, ap (owed_pending c) e)

owed-release_on :
    (c : Option Bytes) (env : Env) (b : Bridge) (pane_id : Bytes) (now : ℕ)
    (pending : Option PendingInput)
    → b.pending_input ≡ pending
    → owed c (release_on env b pane_id now pending) ≡ owed c b
unfolding release_on
owed-release_on c env b pane_id now none e = refl
owed-release_on c env b pane_id now (some p) e = elim (Bool-cases (beq p.pane_id pane_id)) [
  | inl same ↦ rw same (owed-release_pending c env b p now e)
  | inr other ↦ rw other refl
]

pub owed-release_pending_input :
    (c : Option Bytes) (env : Env) (b : Bridge) (active : Option Bool) (pane_id : Bytes) (now : ℕ)
    → owed c (release_pending_input env b active pane_id now) ≡ owed c b
unfolding release_pending_input
owed-release_pending_input c env b active pane_id now = elim (Bool-cases (is_some_and active not)) [
  | inl ended ↦ rw ended (owed-cancel_pending_inputs c b).0
  | inr runs ↦ rw runs (owed-release_on c env b pane_id now b.pending_input refl)
]
