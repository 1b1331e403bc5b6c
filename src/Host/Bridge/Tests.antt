-- ===== src/Host/Bridge/Tests.antt =====
-- Concrete runs of `send_input` and of the held submits: input.rs and held_input.rs.
use herdr_mobile.Base.{
  Bytes, List, [], ap, beq, codes, drop, length, none, not, refl, secs, some, suc, take, true, zero,
  ℕ, ◌+◌, ◌==◌, ◌∷◌, ◌≡◌, ◌≢◌, ◌≤◌,
}
use herdr_mobile.Host.Input.{
  Env, Call, SendInput, until_idle, pane_send_text, reconcile_line, delete_loop, send_tail,
  send_typed_text, call, common_prefix, truncate_last, repeat, reverse, all_sent, out_of_fuel,
}
use herdr_mobile.Host.Input.Editor.{GraphemeLaws, concat, Ran}
use herdr_mobile.Host.Input.Reconcile.{line_after, reconcile_line_lem}
use herdr_mobile.Host.Bridge.{Bridge}
use herdr_mobile.Host.Bridge.Lines.{Follows, line_of-run}
use herdr_mobile.Host.Bridge.Held.{finals, owed_pending}
use herdr_mobile.Host.Bridge.Replies.{Event, requested, released, cancelled, requests, finals-run}
use herdr_mobile.Host.Bridge.Lines as Lines
use herdr_mobile.Host.Bridge.Replies as Replies

-- Each byte is a grapheme.
unfoldable singles : Bytes → List Bytes
singles [] = []
singles (b ∷ bs) = (b ∷ []) ∷ singles bs

concat-singles : (s : Bytes) → concat (singles s) ≡ s
unfolding concat singles
concat-singles [] = refl
concat-singles (b ∷ bs) = ap (◌∷◌ b) (concat-singles bs)

take-singles : (n : ℕ) (s : Bytes) → take n (singles s) ≡ singles (take n s)
unfolding singles
take-singles zero s = refl
take-singles (suc n) [] = refl
take-singles (suc n) (b ∷ bs) = ap (◌∷◌ (b ∷ [])) (take-singles n bs)

drop-singles : (n : ℕ) (s : Bytes) → drop n (singles s) ≡ singles (drop n s)
unfolding singles
drop-singles zero s = refl
drop-singles (suc n) [] = refl
drop-singles (suc n) (b ∷ bs) = drop-singles n bs

singles-GraphemeLaws : GraphemeLaws singles
singles-GraphemeLaws = record {
  concat-graphemes = concat-singles;
  front = λ n s. rw (take-singles n s) (ap singles (concat-singles (take n s)));
  back = λ n s. rw (drop-singles n s) (ap singles (concat-singles (drop n s)));
}

-- Herdr refuses the third call.
abbrev env : Env
env = record { graphemes = singles; herdr = λ calls c. not (length calls == 2) }

abbrev pane : Bytes
pane = codes "p1"

reconcile_line_lem_example :
    (let (calls', old', o) = reconcile_line env [] pane (codes "git stash") (codes "git status") in
      Ran env pane [] (codes "git stash") calls' (line_after o old' (codes "git status"))
      × (o ≢ out_of_fuel))
reconcile_line_lem_example =
    reconcile_line_lem env singles-GraphemeLaws pane [] (codes "git stash") (codes "git status")
      refl

-- Two letters are deleted in one call, and three are sent in another.
reconcile_line_run : reconcile_line env [] pane (codes "ab") (codes "axyz") ≡ (
  (Call.pane_send_input pane none (some (codes "Backspace" ∷ [])), true)
      ∷ (pane_send_text pane (codes "xyz"), true)
      ∷ [],
  codes "a",
  all_sent,
)
unfolding reconcile_line delete_loop send_tail send_typed_text call common_prefix truncate_last
    repeat reverse singles beq
reconcile_line_run = refl

abbrev bridge : Bridge
bridge = record {
  watched = some (record {
    pane_id = pane;
    last_revision = 1;
    viewport_rows = 24;
    width = 80;
    last_frame_hash = 0;
  });
  scheduler = none;
  input_lines = (pane, codes "ls") ∷ [];
  pending_input = none;
  input_replies = [];
  calls = [];
}

abbrev request : SendInput
request = record {
  pane_id = pane;
  bypass_line = none;
  line = none;
  text = none;
  keys = none;
  defer = none;
}

-- A line, a Backspace and an Enter; the Enter is refused.
abbrev typed : List (SendInput × ℕ)
typed =
    (record request { line = some (codes "lsof") }, secs 1)
    ∷ (record request { keys = some (codes "Backspace" ∷ []) }, secs 2)
    ∷ (record request { keys = some (codes "Enter" ∷ []) }, secs 3)
    ∷ []

line_of-run_example :
    Follows env singles-GraphemeLaws bridge (Lines.run env singles-GraphemeLaws bridge typed)
line_of-run_example =
    line_of-run env singles-GraphemeLaws bridge typed ((refl, refl), ((refl, tt), ((refl, tt), tt)))

-- An Enter is held while the agent works, another replaces it, and the second is released.
abbrev events : List Event
events =
    requested (record request { keys = some (codes "Enter" ∷ []); defer = some until_idle })
      (some (codes "1")) (some ((pane, codes "working") ∷ [])) (secs 1)
    ∷ requested (record request { keys = some (codes "Enter" ∷ []); defer = some until_idle })
        (some (codes "2")) (some ((pane, codes "working") ∷ [])) (secs 2)
    ∷ released none pane (secs 3)
    ∷ []

finals-run_example :
    (let (b', replies) = Replies.run env bridge events in
      (finals (some (codes "1")) replies
          + finals (some (codes "1")) b'.input_replies
          + owed_pending (some (codes "1")) b'.pending_input
        ≡ finals (some (codes "1")) [] + 0 + requests (some (codes "1")) events)
      × (owed_pending (some (codes "1")) b'.pending_input ≤ 1))
finals-run_example = finals-run (some (codes "1")) env bridge events
