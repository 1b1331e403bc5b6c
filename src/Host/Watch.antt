-- ===== src/Host/Watch.antt =====
-- The watched pane of a Device's bridge: `watch_pane` and `unwatch_pane` of
-- crates/herdr-relay/src/watch/requests.rs, and `resynchronize` of run_loop.rs. What Herdr answers
-- to a read, the hash of a frame and the readings of the clock are arguments.
use herdr_mobile.Base.{
  Bool, Bytes, List, Option, Result, [], beq, err, false, if◌then◌else◌, is_some_and, none, not, ok,
  ok_or, some, true, ℕ, ◌&&◌, ◌==◌, ◌>>=◌, ◌∷◌,
}
use herdr_mobile.Base.AssocMap.{get}
use herdr_mobile.Host.Scheduler.{
  PaneScheduler, FireOutcome, read, poll_read, rate_limited, new, fire, next_deadline,
  on_revision_changed,
}
use herdr_mobile.Host.Input.{WatchError, pane_not_in_snapshot, herdr_error}
use herdr_mobile.Host.Bridge.{Bridge, WatchedPane, line_of, cancel_pending_inputs}
pub mod Shown
pub mod Typing
pub mod Resync
pub mod Frames
pub mod Poll
mod Tests

pub record ScrollState : Type 0 where
  pub viewport_rows : ℕ
  pub offset_from_bottom : ℕ
  pub max_offset_from_bottom : ℕ

-- The fields of a pane in a snapshot that the watch reads.
pub record RawPane : Type 0 where
  pub pane_id : Bytes
  pub revision : ℕ
  pub scroll : ScrollState

-- What `session.snapshot`, `pane.layout` and `pane.read` answer, where they do not fail.
pub record Reads : Type 0 where
  pub panes : Option (List RawPane)
  pub width : Bytes → Option ℕ
  pub visible_text : Bytes → Option Bytes

-- The settings of `RelayConfig` that the scheduler takes.
pub record Config : Type 0 where
  pub debounce : ℕ
  pub poll : ℕ
  pub input_read : List ℕ
  pub max_reads_per_second : ℕ

-- `frame_hash`, by the hasher of the standard library.
abbrev pub Hash : Type 0
Hash = Bytes → ℕ → ℕ → ℕ

pub record WatchAck : Type 0 where
  pub pane_id : Bytes
  pub line : Bytes
  pub revision : ℕ
  pub viewport_rows : ℕ
  pub width : ℕ
  pub offset_from_bottom : ℕ
  pub max_offset_from_bottom : ℕ

pub record PaneFrame : Type 0 where
  pub pane_id : Bytes
  pub revision : ℕ
  pub viewport_rows : ℕ
  pub width : ℕ
  pub text : Bytes

pub data Message : Type 0 where
  pane_frame : PaneFrame → Message
  pane_closed : Message

unfoldable pub find_pane : Bytes → List RawPane → Option RawPane
find_pane pane_id [] = none
find_pane pane_id (p ∷ panes) = if beq p.pane_id pane_id then some p else find_pane pane_id panes

abbrev pub watches_other : Option WatchedPane → Bytes → Bool
watches_other watched pane_id = is_some_and watched (λ w. not (beq w.pane_id pane_id))

-- What follows the reads that succeed.
unfoldable pub start_watch :
    Hash → Config → Bridge → RawPane → Bytes → ℕ → Bytes → ℕ → Bridge × WatchAck × PaneFrame
start_watch hash config b pane pane_id width text now =
    let rows = pane.scroll.viewport_rows in
    let b' = if watches_other b.watched pane_id then cancel_pending_inputs b else b in
    (
      record b' {
        watched = some (record {
          pane_id = pane_id;
          last_revision = pane.revision;
          viewport_rows = rows;
          width = width;
          last_frame_hash = hash text rows width;
        });
        scheduler =
            some
              (new config.debounce config.poll config.input_read config.max_reads_per_second now);
      },
      record {
        pane_id = pane_id;
        line = line_of b' pane_id;
        revision = pane.revision;
        viewport_rows = rows;
        width = width;
        offset_from_bottom = pane.scroll.offset_from_bottom;
        max_offset_from_bottom = pane.scroll.max_offset_from_bottom;
      },
      record {
        pane_id = pane_id;
        revision = pane.revision;
        viewport_rows = rows;
        width = width;
        text = text;
      },
    )

-- The reads of `watch_pane`, in order.
unfoldable pub read_pane : Reads → Bytes → Result WatchError (RawPane × ℕ × Bytes)
read_pane reads pane_id = ok_or reads.panes herdr_error >>= λ panes.
    ok_or (find_pane pane_id panes) (pane_not_in_snapshot pane_id) >>= λ pane.
    ok_or (reads.width pane_id) herdr_error >>= λ width.
    ok_or (reads.visible_text pane_id) herdr_error >>= λ text. ok (pane, width, text)

unfoldable pub watch_read :
    Hash
    → Config
    → Bridge
    → Bytes
    → ℕ
    → Result WatchError (RawPane × ℕ × Bytes)
    → Bridge × Result WatchError (WatchAck × PaneFrame)
watch_read hash config b pane_id now (err e) = (b, err e)
watch_read hash config b pane_id now (ok (pane, width, text)) =
    let (b', ack, frame) = start_watch hash config b pane pane_id width text now in
    (b', ok (ack, frame))

unfoldable pub watch_pane :
    Hash → Config → Reads → Bridge → Bytes → ℕ → Bridge × Result WatchError (WatchAck × PaneFrame)
watch_pane hash config reads b pane_id now =
    watch_read hash config b pane_id now (read_pane reads pane_id)

abbrev pub watches : Bridge → Bytes → Bool
watches b pane_id = is_some_and b.watched (λ w. beq w.pane_id pane_id)

-- The watch ends, and a held submit is rejected. A `pane_closed` event of the watched pane does the
-- same.
unfoldable pub unwatch_pane : Bridge → Bytes → Bridge
unwatch_pane b pane_id =
    if watches b pane_id
    then record (cancel_pending_inputs b) { watched = none; scheduler = none }
    else b

abbrev pub frame_of : WatchedPane → Bytes → PaneFrame
frame_of w text = record {
  pane_id = w.pane_id;
  revision = w.last_revision;
  viewport_rows = w.viewport_rows;
  width = w.width;
  text = text;
}

-- The width is read again only when the rows changed.
unfoldable pub new_width : Reads → WatchedPane → ℕ → Option ℕ
new_width reads w rows =
    if not (rows == w.viewport_rows) then reads.width w.pane_id else some w.width

unfoldable pub refresh :
    Hash → Reads → Bridge → WatchedPane → RawPane → Bridge × Result WatchError (List Message)
refresh hash reads b w pane =
    let rows = pane.scroll.viewport_rows in
    if pane.revision == w.last_revision then (b, ok []) else elim (new_width reads w rows) [
      | none ↦ (b, err herdr_error)
      | some width ↦ elim (reads.visible_text w.pane_id) [
        | none ↦ (b, err herdr_error)
        | some text ↦
            let w' = record w {
              last_revision = pane.revision;
              viewport_rows = rows;
              width = width;
              last_frame_hash = hash text rows width;
            } in
            (record b { watched = some w' }, ok (pane_frame (frame_of w' text) ∷ []))
      ]
    ]

unfoldable pub resync_found :
    Hash → Reads → Bridge → WatchedPane → Option RawPane → Bridge × Result WatchError (List Message)
resync_found hash reads b w none =
    (record b { watched = none; scheduler = none }, ok (pane_closed ∷ []))
resync_found hash reads b w (some pane) = refresh hash reads b w pane

unfoldable pub resync_watched :
    Hash
    → Reads
    → Bridge
    → WatchedPane
    → Option (List RawPane)
    → Bridge × Result WatchError (List Message)
resync_watched hash reads b w none = (b, err herdr_error)
resync_watched hash reads b w (some panes) = resync_found hash reads b w (find_pane w.pane_id panes)

abbrev resync_option :
    Hash → Reads → Bridge → Option WatchedPane → Bridge × Result WatchError (List Message)
resync_option hash reads b none = (b, ok [])
resync_option hash reads b (some w) = resync_watched hash reads b w reads.panes

unfoldable pub resynchronize : Hash → Reads → Bridge → Bridge × Result WatchError (List Message)
resynchronize hash reads b = resync_option hash reads b b.watched
