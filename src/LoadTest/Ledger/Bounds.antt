-- ===== src/LoadTest/Ledger/Bounds.antt =====
-- What holds of the ledger after any reports.
use purepy.Base.{
  ℕ, suc, ◌+◌, true, ◌&&◌, Option, none, some, List, [], ◌∷◌, ◌==◌, ◌≡◌, refl, ap, arith, ◌∙◌,
  Bool-cases, Option-cases, inl, inr, Bytes, codes, text_eq, get_or, get_elem?,
}
use purepy.LoadTest.Distribution.{Seconds, Random, Distribution, set_at}
use purepy.LoadTest.Distribution.Reservoir.{IsFilled, new_distribution-IsFilled, add-IsFilled}
use purepy.LoadTest.Frames.{parse_frame}
use purepy.LoadTest.Ledger.{
  Events, open_entry, take_ack, new_events, record_times, acknowledge, finish_ack,
}
use purepy.LoadTest.Ledger.Reports.{
  receive, receive_all, Report, ack_report, frame_report, interval, note_frame, note_heartbeat,
  deliver, frame,
}
use purepy.LoadTest.Ledger.Backlog.{IsSound, with_pending, put_entry-IsSound, open_entry-Opened}
use purepy.LoadTest.Ledger.Acks.{nil-IsUnique, mem_nil, Noted, note_ack-IsAcks}

next_of : (n m balance : ℕ) → (n == m && balance == n) ≡ true → n ≡ m
next_of n m balance h = ground (arith, h)

module _ {T : Type 0} {G : Type 0} (seconds : Seconds T) (random : Random G) where
  interval-IsFilled :
      (last : Option (Option T)) (t : T) (d : Distribution T G)
      → IsFilled seconds random d
      → IsFilled seconds random (interval seconds random last t d)
  interval-IsFilled none t d h = h
  interval-IsFilled (some none) t d h = h
  interval-IsFilled (some (some before)) t d h = add-IsFilled seconds random d _ h

  taken-IsSound :
      (s : Events T G) (n : ℕ)
      → Noted s n (take_ack s n)
      → IsSound seconds random s
      → IsSound seconds random (take_ack s n)
  taken-IsSound s n noted h = record {
    acks = noted.fine;
    ids = h.ids;
    small = h.small;
    bounded = h.bounded;
    delivery = h.delivery;
    after_ack = h.after_ack;
    cadence = h.cadence;
    heartbeats = h.heartbeats;
  }

  record_times-IsSound :
      (s : Events T G) (n : ℕ) (a b : T)
      → IsSound seconds random s
      → IsSound seconds random (record_times seconds random s n a b).1
  unfolding record_times
  record_times-IsSound s n a b h = elim (Bool-cases (s.streams == 0)) [
    | inl alone ↦ rw alone (with_pending seconds random s s.pending true h.small h)
    | inr streaming ↦ rw streaming (
        put_entry-IsSound seconds random s n _ (open_entry s n) h
          (open_entry-Opened seconds random s n h))
  ]

  acknowledge-IsSound :
      (s : Events T G) (n : ℕ) (a b : T)
      → IsSound seconds random s
      → IsSound seconds random (acknowledge seconds random s n a b).1
  unfolding acknowledge finish_ack
  acknowledge-IsSound s n a b h = elim (note_ack-IsAcks s n h.acks) [
    | inl (refused, _) ↦ rw refused h
    | inr (taken, noted) ↦
        rw taken (record_times-IsSound (take_ack s n) n a b (taken-IsSound s n noted h))
  ]

  note_frame-IsSound :
      (s : Events T G) (stream : ℕ) (t : T)
      → IsSound seconds random s
      → IsSound seconds random (note_frame seconds random s stream t)
  unfolding note_frame
  note_frame-IsSound s stream t h = record {
    acks = record { ahead = h.acks.ahead; next = h.acks.next; count = h.acks.count };
    ids = h.ids;
    small = h.small;
    bounded = h.bounded;
    delivery = h.delivery;
    after_ack = h.after_ack;
    cadence = interval-IsFilled (get_elem? s.last_frames stream) t s.cadence h.cadence;
    heartbeats = h.heartbeats;
  }

  note_heartbeat-IsSound :
      (s : Events T G) (stream : ℕ) (t : T)
      → IsSound seconds random s
      → IsSound seconds random (note_heartbeat seconds random s stream t)
  unfolding note_heartbeat
  note_heartbeat-IsSound s stream t h = record {
    acks = record { ahead = h.acks.ahead; next = h.acks.next; count = h.acks.count };
    ids = h.ids;
    small = h.small;
    bounded = h.bounded;
    delivery = h.delivery;
    after_ack = h.after_ack;
    cadence = h.cadence;
    heartbeats =
        interval-IsFilled (get_elem? s.last_heartbeats stream) t s.heartbeat_cadence h.heartbeats;
  }

  abbrev counted : Events T G → ℕ → ℕ → Events T G
  counted s stream n = record s {
    last_ids = set_at s.last_ids stream n;
    counts = set_at s.counts stream (get_or s.counts stream 0 + 1);
  }

  counted-IsSound :
      (s : Events T G) (stream n : ℕ)
      → n ≡ suc (get_or s.last_ids stream 0)
      → IsSound seconds random s
      → IsSound seconds random (counted s stream n)
  counted-IsSound s stream n next h = record {
    acks = record { ahead = h.acks.ahead; next = h.acks.next; count = h.acks.count };
    ids =
        ap (λ l. set_at l stream n) h.ids
        ∙ ap (λ m. set_at s.counts stream m)
            (next ∙ ap (λ l. suc (get_or l stream 0)) h.ids ∙ omega arith);
    small = h.small;
    bounded = h.bounded;
    delivery = h.delivery;
    after_ack = h.after_ack;
    cadence = h.cadence;
    heartbeats = h.heartbeats;
  }

  deliver-IsSound :
      (s : Events T G) (stream n : ℕ) (t : T)
      → n ≡ suc (get_or s.last_ids stream 0)
      → IsSound seconds random s
      → IsSound seconds random (deliver seconds random s stream n t).1
  unfolding deliver
  deliver-IsSound s stream n t next h =
      let h' = counted-IsSound s stream n next h in
      put_entry-IsSound seconds random (counted s stream n) n _ (open_entry (counted s stream n) n)
        h' (open_entry-Opened seconds random (counted s stream n) n h')

  frame-IsSound :
      (s : Events T G) (stream : ℕ) (bytes : Bytes) (t : T)
      → IsSound seconds random s
      → IsSound seconds random (frame seconds random s stream bytes t).1
  unfolding frame note_frame
  frame-IsSound s stream bytes t h =
      let h' = note_frame-IsSound s stream t h in
      elim (Bool-cases (text_eq bytes (codes ": keep-alive\n\n"))) [
        | inl beat ↦ rw beat (note_heartbeat-IsSound _ stream t h')
        | inr event ↦ elim (Option-cases (parse_frame bytes)) [
          | inl malformed ↦ rw (event, malformed) h'
          | inr ((n, balance), parsed) ↦
              elim (Bool-cases (n == suc (get_or s.last_ids stream 0) && balance == n)) [
                | inl fresh ↦
                    rw (event, parsed, fresh)
                      (deliver-IsSound _ stream n t (next_of n _ balance fresh) h')
                | inr wrong ↦ rw (event, parsed, wrong) h'
              ]
        ]
      ]

  receive-IsSound :
      (s : Events T G) (report : Report T)
      → IsSound seconds random s
      → IsSound seconds random (receive seconds random s report).1
  unfolding receive
  receive-IsSound s (ack_report n a b) h = acknowledge-IsSound s n a b h
  receive-IsSound s (frame_report stream bytes t) h = frame-IsSound s stream bytes t h

  receive_all-IsSound_from :
      (reports : List (Report T)) (s : Events T G)
      → IsSound seconds random s
      → IsSound seconds random (receive_all seconds random reports s)
  unfolding receive_all
  receive_all-IsSound_from [] s h = h
  receive_all-IsSound_from (r ∷ reports) s h =
      receive_all-IsSound_from reports _ (receive-IsSound s r h)

  new_events-IsSound : (streams : ℕ) → IsSound seconds random (new_events seconds random streams)
  unfolding new_events
  new_events-IsSound streams = record {
    acks = record {
      ahead = record { above = tt; unique = nil-IsUnique };
      next = mem_nil 1;
      count = refl;
    };
    ids = refl;
    small = omega arith;
    bounded = omega arith;
    delivery = new_distribution-IsFilled seconds random 2048;
    after_ack = new_distribution-IsFilled seconds random 2048;
    cadence = new_distribution-IsFilled seconds random 2048;
    heartbeats = new_distribution-IsFilled seconds random 2048;
  }

  -- After any reports, in any order, malformed and refused ones included, whatever the times and the
  -- random numbers are: every stream's last identifier is the number of its events; the identifiers
  -- acknowledged are those up to a floor and distinct ones beyond a gap, and as many as were counted;
  -- the backlog is no longer than its peak, which is at most 8192; and each reservoir holds as many
  -- values as were added, up to its capacity.
  pub receive_all-IsSound :
      (streams : ℕ) (reports : List (Report T))
      → IsSound seconds random
          (receive_all seconds random reports (new_events seconds random streams))
  receive_all-IsSound streams reports =
      receive_all-IsSound_from reports _ (new_events-IsSound streams)
