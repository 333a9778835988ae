-- ===== src/LoadTest/Ledger.antt =====
-- `Events`: what is acknowledged, what has arrived, and the measurements between them. Times are
-- floats, as in the distributions. The asyncio event `changed` is a flag. An exception leaves the
-- state as it is at that point.
pub mod Acks
pub mod Reports
pub mod Backlog
pub mod Bounds
use purepy.Base.{
  ℕ, zero, suc, ◌+◌, Bool, true, false, ◌&&◌, ◌||◌, not, Option, none, some, List, [], ◌∷◌, ◌++◌,
  ltb, leb, ◌==◌, if◌then◌else◌, Bytes, codes, text_eq, length, get_elem?, map, get_or,
}
use Prim.Native.Nat.{max}
use purepy.LoadTest.Distribution.{Seconds, Random, Distribution, new_distribution, set_at, add}
use purepy.LoadTest.Collections.{replicate, find, store, delete, mem, remove}
use purepy.LoadTest.Frames.{parse_frame}

abbrev pub max_pending_events : ℕ
max_pending_events = 8192

-- `written` are "start" and "ack", which are set together.
pub record Entry (T : Type 0) : Type 0 where
  pub written : Option (T × T)
  pub arrivals : List (ℕ × Option T)

pub record Events (T : Type 0) (G : Type 0) : Type 0 where
  pub streams : ℕ
  pub last_ids : List ℕ
  pub counts : List ℕ
  pub last_frames : List (Option T)
  pub last_heartbeats : List (Option T)
  pub pending : List (ℕ × Entry T)
  pub pending_peak : ℕ
  pub ack_floor : ℕ
  pub ack_max : ℕ
  pub ack_count : ℕ
  pub acks_ahead : List ℕ
  pub early_deliveries : ℕ
  pub delivery : Distribution T G
  pub after_ack : Distribution T G
  pub cadence : Distribution T G
  pub heartbeat_cadence : Distribution T G
  pub changed : Bool

-- Did the operation end, or raise?
abbrev pub Result : Type 0 → Type 0 → Type 0
Result T G = Bool × Events T G

-- The loop `while self.ack_floor + 1 in self.acks_ahead`, which takes one of the set in each round.
unfoldable pub advance : ℕ → ℕ → List ℕ → ℕ × List ℕ
advance zero floor ahead = (floor, ahead)
advance (suc fuel) floor ahead = elim (mem (floor + 1) ahead) [
  | false ↦ (floor, ahead)
  | true ↦ advance fuel (floor + 1) (remove (floor + 1) ahead)
]

abbrev pub empty_entry : {T : Type 0} → Entry T
empty_entry = record { written = none; arrivals = [] }

-- `_entry`; `none` is the RuntimeError. The entry is then found in `pending`.
unfoldable pub open_entry :
    {T : Type 0} {G : Type 0} → Events T G → ℕ → Option (Entry T × Events T G)
open_entry s identifier = elim (find s.pending identifier) [
  | some entry ↦ some (entry, s)
  | none ↦
      let pending = s.pending ++ (identifier, empty_entry) ∷ [] in
      if leb max_pending_events (length s.pending)
      then none
      else some (
        empty_entry,
        record s { pending = pending; pending_peak = max s.pending_peak (length pending) },
      )
]

-- The part of `acknowledge` on the acknowledged identifiers, behind its tests.
abbrev pub take_ack : {T : Type 0} {G : Type 0} → Events T G → ℕ → Events T G
take_ack s identifier =
    let ahead = identifier ∷ s.acks_ahead in
    let (floor, left) = advance (length ahead) s.ack_floor ahead in
    record s {
      ack_max = max s.ack_max identifier;
      ack_count = s.ack_count + 1;
      ack_floor = floor;
      acks_ahead = left;
    }

-- The same with its tests; `none` is a RuntimeError.
unfoldable pub note_ack : {T : Type 0} {G : Type 0} → Events T G → ℕ → Option (Events T G)
note_ack s identifier =
    if leb identifier s.ack_floor || mem identifier s.acks_ahead
    then none
    else if leb max_pending_events (length s.acks_ahead)
    then none
    else some (take_ack s identifier)

module _ {T : Type 0} {G : Type 0} (seconds : Seconds T) (random : Random G) where
  unfoldable pub new_events : ℕ → Events T G
  unfolding replicate
  new_events streams =
      let fresh = new_distribution seconds random 2048 in
      record {
        streams = streams;
        last_ids = replicate streams 0;
        counts = replicate streams 0;
        last_frames = replicate streams none;
        last_heartbeats = replicate streams none;
        pending = [];
        pending_peak = 0;
        ack_floor = 0;
        ack_max = 0;
        ack_count = 0;
        acks_ahead = [];
        early_deliveries = 0;
        delivery = fresh;
        after_ack = fresh;
        cadence = fresh;
        heartbeat_cadence = fresh;
        changed = false;
      }

  -- Did an event arrive before its write was dispatched?
  unfoldable pub arrived_early : T → List (ℕ × Option T) → Bool
  arrived_early start [] = false
  arrived_early start ((stream, none) ∷ arrivals) = arrived_early start arrivals
  arrived_early start ((stream, some arrival) ∷ arrivals) =
      seconds.less arrival start || arrived_early start arrivals

  -- The loop of `_reconcile`.
  unfoldable pub measure : T × T → List (ℕ × Option T) → Events T G → Events T G
  measure written [] s = s
  measure written ((stream, none) ∷ arrivals) s = measure written arrivals s
  measure written ((stream, some arrival) ∷ arrivals) s =
      let late = seconds.minus arrival written.1 in
      measure written arrivals (record s {
        delivery = add seconds random s.delivery (seconds.minus arrival written.0);
        after_ack =
            add seconds random s.after_ack
              (if seconds.less seconds.nought late then late else seconds.nought);
        early_deliveries = s.early_deliveries + (if seconds.less arrival written.1 then 1 else 0);
      })

  abbrev pub cleared_arrivals : List (ℕ × Option T) → List (ℕ × Option T)
  cleared_arrivals arrivals = map (λ arrival. (arrival.0, none)) arrivals

  -- What `_reconcile` does with an entry whose write is acknowledged.
  unfoldable pub settle_entry : Events T G → ℕ → Entry T → T × T → Result T G
  settle_entry s identifier entry written =
      let measured = measure written entry.arrivals s in
      let cleared = cleared_arrivals entry.arrivals in
      if arrived_early written.0 entry.arrivals
      then (false, s)
      else if length cleared == s.streams
      then (true, record measured { pending = delete measured.pending identifier })
      else (
        true,
        record measured {
          pending = store measured.pending identifier (record entry { arrivals = cleared });
        },
      )

  unfoldable pub reconcile_written : Events T G → ℕ → Entry T → Option (T × T) → Result T G
  reconcile_written s identifier entry none = (true, s)
  reconcile_written s identifier entry (some written) = settle_entry s identifier entry written

  -- `_reconcile`; the KeyError of a missing entry is an exception too.
  unfoldable pub reconcile_entry : Events T G → ℕ → Option (Entry T) → Result T G
  reconcile_entry s identifier none = (false, s)
  reconcile_entry s identifier (some entry) = reconcile_written s identifier entry entry.written

  unfoldable pub reconcile : Events T G → ℕ → Result T G
  reconcile s identifier = reconcile_entry s identifier (find s.pending identifier)

  -- `self.changed.set()`, if nothing was raised before it.
  unfoldable pub set_changed : Result T G → Result T G
  set_changed (false, s) = (false, s)
  set_changed (true, s) = (true, record s { changed = true })

  -- The new state of the entry that `_entry` returned, its reconciliation, and the flag.
  unfoldable pub put_entry :
      Events T G → ℕ → (Entry T → Entry T) → Option (Entry T × Events T G) → Result T G
  put_entry s identifier put none = (false, s)
  put_entry s identifier put (some (entry, opened)) = set_changed (
      reconcile (record opened { pending = store opened.pending identifier (put entry) })
        identifier)

  -- `acknowledge` behind `note_ack`.
  unfoldable pub record_times : Events T G → ℕ → T → T → Result T G
  record_times noted identifier started acknowledged =
      let written : Entry T → Entry T =
        λ entry. record entry { written = some (started, acknowledged) } in
      if noted.streams == 0
      then (true, record noted { changed = true })
      else put_entry noted identifier written (open_entry noted identifier)

  unfoldable pub finish_ack : Events T G → Option (Events T G) → ℕ → T → T → Result T G
  finish_ack s none identifier started acknowledged = (false, s)
  finish_ack s (some noted) identifier started acknowledged =
      record_times noted identifier started acknowledged

  unfoldable pub acknowledge : Events T G → ℕ → T → T → Result T G
  acknowledge s identifier started acknowledged =
      finish_ack s (note_ack s identifier) identifier started acknowledged
