-- ===== src/Host/Tests.antt =====
-- Concrete runs of the Host's frame codec, scheduler, key names and session registry.
use herdr_mobile.Base.{
  ==_refl, Bytes, List, [], ap, append_nil, arith, beq, codes, err, false, if◌then◌else◌, is_ok,
  is_some, length, map, millis, none, ok, refl, secs, some, suc, true, ℕ, ◌++◌, ◌+◌, ◌<◌, ◌==◌, ◌↔◌,
  ◌∷◌, ◌≡◌, ◌≤◌, ◌⊎◌,
}
use herdr_mobile.Base.Windows.{count_within}
use herdr_mobile.Base.AssocMap.{Distinct, get}
use herdr_mobile.Host.Codec
use herdr_mobile.Host.Codec.{
  chunks, number_fragments, choose_codec, Zlib, Reads, finished, failed, chunk, Reassembler,
  PartialRecord, fresh, accept_fragment, split_into_fragments, bounded_zlib_decompress,
  decode_record, build_record, max_uncompressed_len, envelope_too_large,
}
use herdr_mobile.Host.Codec.Record.{read_all, ZlibLaws, record_of, decode_record-build_record}
use herdr_mobile.Host.Codec.Reassembly.{IsSoundFor, accept_fragment-IsSound}
use herdr_mobile.Host.Codec.Transport.{Snow, NoiseLaws, close_frame, encode_frame, receive_frame}
use herdr_mobile.Host.Codec.Roundtrip.{stamped, receive_frame-encode_frame}
use herdr_mobile.Host.Scheduler.{
  PaneScheduler, read, Event, input_sent, revision_changed, fired, new, on_input_sent,
  on_revision_changed, is_due, next_deadline, fire, rearm, issue, pop_old, retain_after, step,
}
use herdr_mobile.Host.Scheduler.Deadlines.{next_deadline-fire}
use herdr_mobile.Host.Scheduler.Window.{
  Spaced, revision_reads, revision_reads-Spaced, step-pending_due,
}
use herdr_mobile.Host.Scheduler.Rate.{all_reads, all_reads-capped}
use herdr_mobile.Host.Scheduler.Retry.{fire-retry}
use herdr_mobile.Base.Strings.{strip_prefix, split}
use herdr_mobile.Host.KeyMap.{
  validate_chord, validate_key, is_valid_base, split_chord, is_function_key, filter_names,
  names_equal,
}
use herdr_mobile.Host.KeyMap.Chords.{ctrl, shift, IsHeld, validate_chord_iff}
use herdr_mobile.Host.Registry.{SessionRegistry, RevokeResult, close_for_revocation}
use herdr_mobile.Host.Registry.Revocation.{unless_revoked, get-close_for_revocation}

-- A codec that leaves its input as it is, read in one chunk.
abbrev pub stored : Zlib
stored = record { deflate = λ b. b; reads = λ b. chunk b finished }

pub stored-ZlibLaws : ZlibLaws stored
unfolding read_all
stored-ZlibLaws = record { inflates = λ b. ap some (append_nil b) }

-- A session whose two ends count the messages and refuse those that are too long.
abbrev pub counting : Snow
counting = record {
  State = ℕ;
  write_message = λ n p. (suc n, some (n ∷ p));
  read_message =
      λ n c. elim c [ [] ↦ (n, none) | k ∷ p ↦ if k == n then (suc n, some p) else (n, none) ];
}

unfoldable pub counting-NoiseLaws : NoiseLaws counting
counting-NoiseLaws = record {
  Paired = λ s r. s ≡ r;
  delivers = λ s r p e h. (suc s, suc r, s ∷ p, refl, rw e (rw (==_refl r) refl), ap suc e);
}

abbrev pub hello : Bytes
hello = codes "{\"t\":\"hello\"}"

decode_record-build_record_example :
    ((length hello ≤ max_uncompressed_len)
      × (build_record stored hello ≡ ok (record_of stored hello))
      × (length (record_of stored hello) ≤ length hello + 5)
      × (decode_record stored (record_of stored hello) ≡ ok hello))
    ⊎ ((max_uncompressed_len < length hello) × (build_record stored hello ≡ err envelope_too_large))
decode_record-build_record_example = decode_record-build_record stored hello stored-ZlibLaws

-- The second of three fragments.
abbrev halfway : Reassembler
halfway = record {
  partial =
      some
        (record { frag_count = 3; next_index = 1; buffer = 0 ∷ 0 ∷ []; last_fragment_at = secs 5 });
}

accept_fragment-IsSound_example :
    IsSoundFor stored halfway.partial
      (1 ∷ 3 ∷ 7 ∷ [])
      (secs 6)
      (accept_fragment stored halfway (1 ∷ 3 ∷ 7 ∷ []) (secs 6))
accept_fragment-IsSound_example =
    accept_fragment-IsSound stored halfway (1 ∷ 3 ∷ 7 ∷ []) (secs 6)
      (omega arith, omega arith, omega arith, omega arith, omega arith)

-- One ciphertext arrives, and a second message after it is left unread.
receive_frame-encode_frame_example :
    (s' : ℕ) × (r' : ℕ) × (cs : List Bytes) × (encode_frame counting stored 4 hello ≡ (s', ok cs))
    × (receive_frame counting stored fresh 4 (stamped cs (secs 3 ∷ []) ++ close_frame ∷ [])
        ≡ (fresh, r', close_frame ∷ [], ok hello))
    × (s' ≡ r')
unfolding split_into_fragments chunks number_fragments choose_codec counting-NoiseLaws
    Codec.to_be_bytes
receive_frame-encode_frame_example =
    receive_frame-encode_frame stored counting counting-NoiseLaws hello (secs 3 ∷ [])
      (close_frame ∷ []) 4 4 stored-ZlibLaws refl (omega arith) refl tt

-- A pane with a window of 100 ms, a poll of 2 s, and one read a second.
abbrev pane : PaneScheduler
pane = new (millis 100) (secs 2) (millis 50 ∷ millis 20 ∷ []) 1 (secs 1)

abbrev events : List Event
events =
    revision_changed (secs 1)
    ∷ fired (secs 1)
    ∷ input_sent (secs 1 + millis 10)
    ∷ revision_changed (secs 1 + millis 30)
    ∷ fired (secs 1 + millis 100)
    ∷ fired (secs 2)
    ∷ []

all_reads-capped_example : count_within (secs 2) (all_reads pane events) ≤ 1
all_reads-capped_example =
    all_reads-capped (millis 100) (secs 2) (millis 50 ∷ millis 20 ∷ []) 1 (secs 1) (secs 2) events
      (omega arith)
      (omega arith, (omega arith, (omega arith, (omega arith, (omega arith, (omega arith, tt))))))

revision_reads-Spaced_example : Spaced (millis 100) 0 (revision_reads pane events)
revision_reads-Spaced_example =
    revision_reads-Spaced (millis 100) (secs 2) (millis 50 ∷ millis 20 ∷ []) 1 (secs 1) events

revision_reads_run : revision_reads pane events ≡ secs 1 ∷ secs 2 ∷ []
unfolding revision_reads step new on_input_sent on_revision_changed fire rearm issue pop_old
    retain_after
revision_reads_run = refl

-- The pane has read at 1 s; a revision that came at 1.03 s is due at 1.1 s.
abbrev waiting : PaneScheduler
waiting = record pane {
  pending_due = some (secs 1 + millis 100);
  window_open_until = some (secs 1 + millis 100);
  read_history = secs 1 ∷ [];
}

step-pending_due_example :
    (is_some (step waiting (fired (secs 2))).0.pending_due ≡ true)
    ⊎ (((step waiting (fired (secs 2))).1 ≡ some (secs 2, read))
        × ((step waiting (fired (secs 2))).0.pending_due ≡ none))
step-pending_due_example = step-pending_due waiting (fired (secs 2)) refl

fire-retry_example :
    ((fire waiting (secs 1 + millis 100)).0.pending_due ≡ some (secs 1 + secs 1))
    × ((fire (fire waiting (secs 1 + millis 100)).0 (secs 2)).1 ≡ some read)
unfolding new fire rearm issue pop_old retain_after
fire-retry_example =
    fire-retry waiting (secs 1 + millis 100) (secs 2) (secs 1) [] (omega arith) (omega arith)
      (omega arith) refl refl refl (omega arith)

next_deadline-fire_example : is_due (secs 2) (next_deadline (fire waiting (secs 2)).0) ≡ false
unfolding new
next_deadline-fire_example = next_deadline-fire waiting (secs 2) (omega arith)

validate_chord_iff_example :
    (validate_chord (ctrl ∷ shift ∷ []) (codes "k") (codes "ctrl+shift+k") ≡ ok tt)
    ↔ (IsHeld (ctrl ∷ shift ∷ []) × (is_valid_base (codes "k") ≡ true))
validate_chord_iff_example =
    validate_chord_iff (ctrl ∷ shift ∷ []) (codes "k") (codes "ctrl+shift+k")

validate_key_runs :
    map
      (λ k. is_ok (validate_key k))
      (codes "F12"
        ∷ codes "f100"
        ∷ codes "ctrl+alt+c"
        ∷ codes "alt+ctrl+c"
        ∷ codes "cmd+c"
        ∷ codes "f0007"
        ∷ [])
    ≡ true ∷ false ∷ true ∷ false ∷ false ∷ true ∷ []
unfolding validate_key split_chord is_function_key validate_chord filter_names names_equal beq
    strip_prefix split
validate_key_runs = refl

-- Two sessions, one of a device that is revoked and one of a device not yet known.
abbrev sessions : SessionRegistry
sessions =
    (codes "one", record { device_id = some (codes "phone"); close = 0 })
    ∷ (codes "two", record { device_id = none; close = 1 })
    ∷ []

abbrev phone : RevokeResult
phone = record { all = false; revoked = codes "phone" ∷ [] }

sessions-Distinct : Distinct sessions
unfolding get beq
sessions-Distinct = (refl, (refl, tt))

get-close_for_revocation_example :
    get (codes "two") (close_for_revocation (λ rx. true) sessions phone).0
    ≡ unless_revoked phone (get (codes "two") sessions)
get-close_for_revocation_example =
    get-close_for_revocation (λ rx. true) sessions phone (codes "two") sessions-Distinct
