-- ===== src/Host/Watch/Poll.antt =====
-- The reads of a watched pane: `poll_scheduler` of crates/herdr-relay/src/watch/run_loop.rs and
-- `handle_pane_updated` of incoming.rs.
use herdr_mobile.Base.{
  Bool, Bytes, Option, beq, false, if◌then◌else◌, none, not, some, true, ℕ, ◌&&◌, ◌==◌,
}
use herdr_mobile.Host.Scheduler.{
  PaneScheduler, FireOutcome, read, poll_read, rate_limited, fire, on_revision_changed,
}
use herdr_mobile.Host.Bridge.{Bridge, WatchedPane}
use herdr_mobile.Host.Watch.{Hash, PaneFrame, Reads, frame_of}

abbrev pub is_poll : FireOutcome → Bool
is_poll poll_read = true
is_poll read = false
is_poll rate_limited = false

-- The frame that was read, unless it is a poll's and shows what was sent last.
unfoldable pub emit_frame :
    Hash → Bridge → WatchedPane → Bool → Option Bytes → Bridge × Option PaneFrame
emit_frame hash b w polls none = (b, none)
emit_frame hash b w polls (some text) =
    let sum = hash text w.viewport_rows w.width in
    if polls && (sum == w.last_frame_hash)
    then (b, none)
    else (record b { watched = some (record w { last_frame_hash = sum }) }, some (frame_of w text))

unfoldable pub after_fire :
    Hash → Reads → Bridge → Option FireOutcome → Option WatchedPane → Bridge × Option PaneFrame
after_fire hash reads b none watched = (b, none)
after_fire hash reads b (some rate_limited) watched = (b, none)
after_fire hash reads b (some read) none = (b, none)
after_fire hash reads b (some poll_read) none = (b, none)
after_fire hash reads b (some read) (some w) =
    emit_frame hash b w false (reads.visible_text w.pane_id)
after_fire hash reads b (some poll_read) (some w) =
    emit_frame hash b w true (reads.visible_text w.pane_id)

unfoldable pub poll_with :
    Hash → Reads → Bridge → Option PaneScheduler → ℕ → Bridge × Option PaneFrame
poll_with hash reads b none now = (b, none)
poll_with hash reads b (some s) now =
    let (s', outcome) = fire s now in
    after_fire hash reads (record b { scheduler = some s' }) outcome b.watched

unfoldable pub poll_scheduler : Hash → Reads → Bridge → ℕ → Bridge × Option PaneFrame
poll_scheduler hash reads b now = poll_with hash reads b b.scheduler now

abbrev pub rows_differ : Option ℕ → WatchedPane → Bool
rows_differ none w = false
rows_differ (some rows) w = not (rows == w.viewport_rows)

abbrev pub rows_or : Option ℕ → ℕ → ℕ
rows_or none old = old
rows_or (some rows) old = rows

abbrev pub width_or : Option ℕ → ℕ → ℕ
width_or none old = old
width_or (some width) old = width

abbrev pub revise : Option PaneScheduler → ℕ → Option PaneScheduler
revise none now = none
revise (some s) now = some (on_revision_changed s now)

-- A `pane_updated` event with its pane, its revision and, where it has them, its rows.
unfoldable pub pane_updated : Reads → Bridge → WatchedPane → ℕ → Option ℕ → ℕ → Bridge
pane_updated reads b w revision rows now =
    if (w.last_revision == revision) && not (rows_differ rows w)
    then b
    else (let width =
          if rows_differ rows w then width_or (reads.width w.pane_id) w.width else w.width in
        record b {
          watched = some (record w {
            last_revision = revision;
            viewport_rows = rows_or rows w.viewport_rows;
            width = width;
          });
          scheduler = revise b.scheduler now;
        })

abbrev pub pane_updated_option :
    Reads → Bridge → Option WatchedPane → Bytes → ℕ → Option ℕ → ℕ → Bridge
pane_updated_option reads b none pane_id revision rows now = b
pane_updated_option reads b (some w) pane_id revision rows now =
    if beq w.pane_id pane_id then pane_updated reads b w revision rows now else b

unfoldable pub handle_pane_updated : Reads → Bridge → Bytes → ℕ → Option ℕ → ℕ → Bridge
handle_pane_updated reads b pane_id revision rows now =
    pane_updated_option reads b b.watched pane_id revision rows now
