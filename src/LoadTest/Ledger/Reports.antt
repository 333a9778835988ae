-- ===== src/LoadTest/Ledger/Reports.antt =====
-- `Events.frame`, and any sequence of the reports of clients and streams.
use purepy.Base.{
  ℕ, suc, ◌+◌, true, false, ◌&&◌, Option, none, some, List, [], ◌∷◌, ◌==◌, if◌then◌else◌, Bytes,
  codes, text_eq, get_elem?, get_or,
}
use purepy.LoadTest.Distribution.{Seconds, Random, Distribution, set_at, add}
use purepy.LoadTest.Collections.{store}
use purepy.LoadTest.Frames.{parse_frame}
use purepy.LoadTest.Ledger.{Events, Result, open_entry, put_entry, acknowledge}

module _ {T : Type 0} {G : Type 0} (seconds : Seconds T) (random : Random G) where
  abbrev pub interval : Option (Option T) → T → Distribution T G → Distribution T G
  interval (some (some previous)) arrived d = add seconds random d (seconds.minus arrived previous)
  interval _ arrived d = d

  -- The first lines of `frame`, on the frame before it.
  unfoldable pub note_frame : Events T G → ℕ → T → Events T G
  note_frame s stream arrived = record s {
    cadence = interval (get_elem? s.last_frames stream) arrived s.cadence;
    last_frames = set_at s.last_frames stream (some arrived);
  }

  unfoldable pub note_heartbeat : Events T G → ℕ → T → Events T G
  note_heartbeat s stream arrived = record s {
    heartbeat_cadence = interval (get_elem? s.last_heartbeats stream) arrived s.heartbeat_cadence;
    last_heartbeats = set_at s.last_heartbeats stream (some arrived);
  }

  -- An event that is the next one of its stream.
  unfoldable pub deliver : Events T G → ℕ → ℕ → T → Result T G
  deliver s stream identifier arrived =
      let counted = record s {
        last_ids = set_at s.last_ids stream identifier;
        counts = set_at s.counts stream (get_or s.counts stream 0 + 1);
      } in
      put_entry seconds random counted identifier
        (λ entry. record entry { arrivals = store entry.arrivals stream (some arrived) })
        (open_entry counted identifier)

  -- The stream is one of the streams.
  unfoldable pub frame : Events T G → ℕ → Bytes → T → Result T G
  frame s stream bytes arrived =
      let noted = note_frame s stream arrived in
      if text_eq bytes (codes ": keep-alive\n\n")
      then (true, note_heartbeat noted stream arrived)
      else (elim (parse_frame bytes) [
        | none ↦ (false, noted)
        | some (identifier, balance) ↦
            if identifier == suc (get_or s.last_ids stream 0) && balance == identifier
            then deliver noted stream identifier arrived
            else (false, noted)
      ])

-- What the clients and the streams report, in the order of their reports.
pub data Report (T : Type 0) : Type 0 where
  ack_report : (identifier : ℕ) (started ended : T) → Report T
  frame_report : (stream : ℕ) (bytes : Bytes) (at_time : T) → Report T

module _ {T : Type 0} {G : Type 0} (seconds : Seconds T) (random : Random G) where
  unfoldable pub receive : Events T G → Report T → Result T G
  receive s (ack_report identifier started ended) =
      acknowledge seconds random s identifier started ended
  receive s (frame_report stream bytes at_time) = frame seconds random s stream bytes at_time

  -- An exception ends one task; the others go on with the state it left.
  unfoldable pub receive_all : List (Report T) → Events T G → Events T G
  unfolding receive
  receive_all [] s = s
  receive_all (report ∷ reports) s = receive_all reports (receive s report).1
