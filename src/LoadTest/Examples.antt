-- ===== src/LoadTest/Examples.antt =====
-- Tests of the load test's ledger, on a clock of whole ticks, and the theorems at concrete inputs.
use purepy.Base.{ℕ, ◌+◌, ◌-◌, ltb, ◌≡◌, refl, arith, some, List, [], ◌∷◌, length, text_eq}
use purepy.Base.Int.{pos}
use purepy.Base.Decimal.{str, digits, encode_utf8, encode_character}
use purepy.Service.Render.{render_event}
use purepy.LoadTest.Distribution.{Seconds, Random, add, sample, lower, upper, new_distribution}
use purepy.LoadTest.Collections.{find, store, delete, mem, remove, replicate}
use purepy.LoadTest.Frames.{parse_frame, strip, positive_number, span_digits}
use purepy.LoadTest.Frames.RoundTrip.{parse_frame-render_event}
use purepy.LoadTest.Ledger.{
  Events, new_events, acknowledge, finish_ack, note_ack, advance, record_times, put_entry,
  set_changed, reconcile, reconcile_entry, reconcile_written, settle_entry, arrived_early, measure,
  open_entry,
}
use purepy.LoadTest.Ledger.Reports.{
  Report, ack_report, frame_report, receive_all, receive, frame, deliver, note_frame,
}
use purepy.LoadTest.Ledger.Bounds.{receive_all-IsSound}
use purepy.LoadTest.Ledger.Backlog.{IsSound}

abbrev ticks : Seconds ℕ
ticks = record { nought = 0; plus = λ a b. a + b; minus = λ a b. a - b; less = λ a b. ltb a b }

abbrev first_always : Random ℕ
first_always = record { seeded = λ n. n; randrange = λ g n. (0, g) }

abbrev frame_of : ℕ → List ℕ
frame_of n = render_event (record { event_id = n; user_id = pos 1; balance = pos n })

-- Two streams: the second event is acknowledged first, one stream has both events, the other one.
abbrev reports : List (Report ℕ)
reports =
    ack_report 2 10 14
    ∷ frame_report 0 (frame_of 1) 15
    ∷ frame_report 0 (frame_of 2) 16
    ∷ ack_report 1 9 17
    ∷ frame_report 1 (frame_of 1) 18
    ∷ ack_report 2 20 21
    ∷ frame_report 1 (frame_of 1) 22
    ∷ []

abbrev after_reports : Events ℕ ℕ
after_reports = receive_all ticks first_always reports (new_events ticks first_always 2)

ledger : Unit {0}
unfolding receive_all receive frame deliver note_frame acknowledge finish_ack note_ack advance mem
    remove record_times put_entry set_changed reconcile reconcile_entry reconcile_written
    settle_entry arrived_early measure open_entry find store delete new_events replicate add sample
    lower upper new_distribution parse_frame strip positive_number span_digits text_eq render_event
    str digits encode_utf8 encode_character
ledger = tt

test_parse : parse_frame (frame_of 12) ≡ some (12, 12)
unfolding ledger
test_parse = refl

-- The first event is reconciled; the second waits for the other stream.
test_reports :
    (after_reports.ack_count ≡ 2)
    × (after_reports.last_ids ≡ 2 ∷ 1 ∷ [])
    × (length after_reports.pending ≡ 1)
    × (length after_reports.delivery.values ≡ 3)
unfolding ledger
test_reports = (refl, refl, refl, refl)

receive_all-IsSound_example : IsSound ticks first_always after_reports
receive_all-IsSound_example = receive_all-IsSound ticks first_always 2 reports

parse_frame-render_event_example : parse_frame (frame_of 12) ≡ some (12, 12)
unfolding ledger
parse_frame-render_event_example =
    parse_frame-render_event 12 12 (omega arith) (omega arith) (omega arith) (omega arith)
