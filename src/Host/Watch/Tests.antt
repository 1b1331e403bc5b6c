-- ===== src/Host/Watch/Tests.antt =====
-- Concrete runs of the watch: requests.rs, incoming.rs and run_loop.rs.
use herdr_mobile.Base.{
  Bytes, List, [], beq, codes, length, millis, none, ok, refl, secs, some, true, ℕ, ◌*◌, ◌+◌, ◌∷◌,
  ◌≡◌, ◌≢◌,
}
use herdr_mobile.Host.Scheduler.{PaneScheduler, fire, rearm, issue, pop_old}
use herdr_mobile.Host.Input.{Env}
use herdr_mobile.Host.Bridge.{Bridge}
use herdr_mobile.Host.Watch.{
  Reads, Config, Hash, PaneFrame, resynchronize, resync_watched, resync_found, refresh, find_pane,
  new_width, pane_frame,
}
use herdr_mobile.Host.Watch.Poll.{poll_scheduler, poll_with, after_fire, emit_frame}
use herdr_mobile.Host.Watch.Resync.{resynchronize-resynchronize}
use herdr_mobile.Host.Watch.Shown.{IsShown}
use herdr_mobile.Host.Watch.Frames.{
  Event, watched, resynchronized, polled, updated, run, run-IsShown, poll_scheduler_new,
}

-- A hash that adds up the size and the length of the text.
abbrev hash : Hash
hash = λ text rows width. length text + rows * 1000 + width

abbrev config : Config
config = record {
  debounce = millis 100;
  poll = secs 2;
  input_read = millis 50 ∷ [];
  max_reads_per_second = 10;
}

abbrev env : Env
env = record { graphemes = λ s. s ∷ []; herdr = λ calls c. true }

abbrev pane : Bytes
pane = codes "p1"

abbrev reads : ℕ → Bytes → Reads
reads revision text = record {
  panes = some (
      record {
        pane_id = pane;
        revision = revision;
        scroll = record { viewport_rows = 24; offset_from_bottom = 0; max_offset_from_bottom = 0 };
      }
      ∷ []);
  width = λ p. some 80;
  visible_text = λ p. some text;
}

abbrev idle : Bridge
idle = record {
  watched = none;
  scheduler = none;
  input_lines = [];
  pending_input = none;
  input_replies = [];
  calls = [];
}

abbrev events : List Event
events =
    watched (reads 1 (codes "$")) pane (secs 1)
    ∷ polled (reads 1 (codes "$")) (secs 3)
    ∷ updated (reads 2 (codes "$ ls")) pane 2 none (secs 4)
    ∷ polled (reads 2 (codes "$ ls")) (secs 4)
    ∷ resynchronized (reads 3 (codes "$ ls"))
    ∷ []

run-IsShown_example :
    (let (b', last) = run hash config env idle none events in IsShown hash b' last)
run-IsShown_example = run-IsShown hash config env idle events refl refl

abbrev scheduler : PaneScheduler
scheduler = record {
  window = millis 100;
  poll = secs 2;
  input_offsets = [];
  max_per_sec = 10;
  pending_due = none;
  window_open_until = none;
  next_poll = secs 3;
  input_due = [];
  read_history = [];
}

abbrev shown : PaneFrame
shown = record { pane_id = pane; revision = 1; viewport_rows = 24; width = 80; text = codes "$" }

abbrev watching : Bridge
watching = record idle {
  watched = some (record {
    pane_id = pane;
    last_revision = 1;
    viewport_rows = 24;
    width = 80;
    last_frame_hash = 24081;
  });
  scheduler = some scheduler;
}

abbrev news : PaneFrame
news = record shown { text = codes "$ ls" }

poll_scheduler_new_example :
    (pane ≡ pane)
    × ((reads 1 (codes "$ ls")).visible_text pane ≡ some (codes "$ ls"))
    × (hash (codes "$ ls") 24 80 ≢ hash (codes "$") 24 80)
unfolding fire rearm issue pop_old poll_scheduler poll_with after_fire emit_frame
poll_scheduler_new_example =
    poll_scheduler_new hash (reads 1 (codes "$ ls")) watching scheduler (secs 3) shown news refl
      refl (refl, (shown, refl, refl, refl)) refl

-- The revision has moved since the frame was sent.
abbrev resynced : Bridge
resynced = record watching {
  watched = some (record {
    pane_id = pane;
    last_revision = 2;
    viewport_rows = 24;
    width = 80;
    last_frame_hash = 24084;
  });
}

resynchronize-resynchronize_example :
    resynchronize hash (reads 2 (codes "$ ls")) resynced ≡ (resynced, ok [])
unfolding resynchronize resync_watched resync_found refresh find_pane new_width beq
resynchronize-resynchronize_example =
    resynchronize-resynchronize hash (reads 2 (codes "$ ls")) watching resynced
      (pane_frame (record shown { revision = 2; text = codes "$ ls" }) ∷ []) refl
