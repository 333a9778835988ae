-- ===== src/Service/Server/Stream.antt =====
-- The event stream delivers the ledger: every event once, in order, with nothing between but
-- keep-alives, whatever other connections commit meanwhile.
use purepy.Base.{
  ℕ, zero, suc, ◌+◌, ◌<◌, ◌≤◌, ◌≡◌, ◌⊎◌, ◌∙◌, refl, ap, sym, subst, arith, inl, inr, Bool, true,
  false, some, List, [], ◌∷◌, ◌++◌, Bytes, length, get_elem?, get_elem?-append_left,
  lt_of_get_elem?, get_elem?_of_drop, drop_next, take, drop, append_assoc, append-nil,
}
use purepy.Service.Types.{UpdatePlan, Event}
use purepy.Service.Render.{render_event}
use purepy.Service.Database.{Fault, Database, execute_update}
use purepy.Service.Database.Ledger.{
  IsNumbered, IsLedger, Extends, execute_update-IsLedger, execute_update-Extends,
  load_event_page-cases,
}
use purepy.Service.Host.{Host, send_bytes, run_updates, settle, read_page, first_batch}
use purepy.Service.Server.{
  Outcome, returned, raised, out_of_fuel, send_events, finish_round, keep_alive, poll, events,
}

-- `Stream ledger n sent`: what was sent are the first `n` events of the ledger, rendered, each once
-- and in order, and keep-alives.
pub data Stream (ledger : List Event) : ℕ → List Bytes → Type 0 where
  start : Stream ledger 0 []
  delivered :
      {c d : ℕ} {before sent : List Bytes} {e : Event}
      → Stream ledger c before
      → get_elem? ledger c ≡ some e
      → sent ≡ before ++ render_event e ∷ []
      → d ≡ suc c
      → Stream ledger d sent
  alive :
      {c : ℕ} {before sent : List Bytes}
      → Stream ledger c before
      → sent ≡ before ++ keep_alive ∷ []
      → Stream ledger c sent

Stream-append :
    {ledger longer : List Event} (more : List Event) {c : ℕ} {sent : List Bytes}
    → longer ≡ ledger ++ more
    → Stream ledger c sent
    → Stream longer c sent
Stream-append more same start = start
Stream-append {ledger} more same (delivered {c = c} {e = e} before at sent next) =
    delivered (Stream-append more same before)
      (ap (λ l. get_elem? l c) same
        ∙ get_elem?-append_left ledger more c (lt_of_get_elem? ledger c e at)
        ∙ at)
      sent next
Stream-append more same (alive before sent) = alive (Stream-append more same before) sent

-- The host's database is a ledger, and what was sent behind `base` is a stream of it.
pub record Streaming (base : List Bytes) (cursor : ℕ) (host : Host) : Type 0 where
  pub ledger : IsLedger host.db
  pub trace : List Bytes
  pub sent : host.sent ≡ base ++ trace
  pub stream : Stream host.db.events cursor trace

pub run_updates-IsLedger :
    (db : Database) (plans : List UpdatePlan)
    → IsLedger db
    → IsLedger (run_updates db plans) × Extends db (run_updates db plans)
unfolding run_updates
run_updates-IsLedger db [] h = (h, ([], sym (append-nil db.events)))
run_updates-IsLedger db (plan ∷ plans) h =
    let next = (execute_update db plan Fault.no_fault).1 in
    let (more, first) = execute_update-Extends db plan Fault.no_fault in
    let (kept, (rest, then_more)) =
      run_updates-IsLedger next plans (execute_update-IsLedger db plan Fault.no_fault h) in
    (kept, (more ++ rest, then_more ∙ ap (λ l. l ++ rest) first ∙ append_assoc db.events more rest))

pub settle-Streaming :
    (base : List Bytes) (cursor : ℕ) (host : Host)
    → Streaming base cursor host
    → Streaming base cursor (settle host).1 × ((settle host).1.sends ≡ host.sends)
unfolding settle
settle-Streaming base cursor host h =
    let (kept, (more, longer)) = run_updates-IsLedger host.db (first_batch host.others) h.ledger in
    (
      record {
        ledger = kept;
        trace = h.trace;
        sent = h.sent;
        stream = Stream-append more longer h.stream;
      },
      refl,
    )

-- One send: it fails and writes nothing, or it succeeds and uses up one of the sends.
pub send_bytes-cases :
    (bytes : Bytes) (host : Host)
    → let (ok, after) = send_bytes bytes host in
      ((ok ≡ false)
        × (after.sent ≡ host.sent)
        × (after.db ≡ host.db)
        × (length after.sends ≤ length host.sends))
      ⊎ ((ok ≡ true)
          × (after.sent ≡ host.sent ++ bytes ∷ [])
          × (after.db ≡ host.db)
          × (length after.sends < length host.sends))
unfolding send_bytes
send_bytes-cases bytes host = ground arith

-- The next events of the ledger behind the cursor.
abbrev IsNext : List Event → ℕ → List Event → Type 0
IsNext ledger c [] = Unit
IsNext ledger c (e ∷ page) =
    (get_elem? ledger c ≡ some e) × (e.event_id ≡ suc c) × IsNext ledger (suc c) page

number_at :
    (k c : ℕ) (events : List Event) (e : Event)
    → IsNumbered k events
    → get_elem? events c ≡ some e
    → e.event_id ≡ suc (k + c)
number_at k c [] e h at = cc
number_at k zero (x ∷ events) e h at = let same : x ≡ e = cc in ground arith
number_at k (suc c) (x ∷ events) e h at = number_at (suc k) c events e h.1 at ∙ omega arith

page-IsNext :
    (n c : ℕ) (ledger rest : List Event)
    → IsNumbered 0 ledger
    → drop c ledger ≡ rest
    → IsNext ledger c (take n rest)
page-IsNext zero c ledger rest h e = tt
page-IsNext (suc n) c ledger [] h e = tt
page-IsNext (suc n) c ledger (x ∷ rest) h e =
    let at = get_elem?_of_drop c ledger x rest e in
    (
      at,
      number_at 0 c ledger x h at ∙ omega arith,
      page-IsNext n (suc c) ledger rest h (
          ap (λ k. drop k ledger) (let r : suc c ≡ c + 1 = omega arith in r)
          ∙ drop_next c ledger x rest e),
    )

-- What a part of the handler leaves: the stream goes on, and no send is undone.
record Goes (base : List Bytes) (host : Host) (cursor : ℕ) (after : Host) : Type 0 where
  streaming : Streaming base cursor after
  sends : length after.sends ≤ length host.sends

-- A send that does not show in the stream: the database is the same, and so is what was sent.
kept-Streaming :
    (base : List Bytes) (cursor : ℕ) (host after : Host)
    → after.sent ≡ host.sent
    → after.db ≡ host.db
    → Streaming base cursor host
    → Streaming base cursor after
kept-Streaming base cursor host after same db h = record {
  ledger = subst IsLedger (sym db) h.ledger;
  trace = h.trace;
  sent = same ∙ h.sent;
  stream = subst (λ d. Stream d.events cursor h.trace) (sym db) h.stream;
}

-- An event that is sent.
more-Streaming :
    (base : List Bytes) (cursor : ℕ) (host after : Host) (e : Event)
    → after.sent ≡ host.sent ++ render_event e ∷ []
    → after.db ≡ host.db
    → get_elem? host.db.events cursor ≡ some e
    → Streaming base cursor host
    → Streaming base (suc cursor) after
more-Streaming base cursor host after e more db at h = record {
  ledger = subst IsLedger (sym db) h.ledger;
  trace = h.trace ++ render_event e ∷ [];
  sent = more ∙ ap (λ l. l ++ render_event e ∷ []) h.sent ∙ append_assoc base h.trace _;
  stream =
      subst (λ d. Stream d.events (suc cursor) (h.trace ++ render_event e ∷ [])) (sym db)
        (delivered h.stream at refl refl);
}

-- A keep-alive that is sent.
alive-Streaming :
    (base : List Bytes) (cursor : ℕ) (host after : Host)
    → after.sent ≡ host.sent ++ keep_alive ∷ []
    → after.db ≡ host.db
    → Streaming base cursor host
    → Streaming base cursor after
alive-Streaming base cursor host after more db h = record {
  ledger = subst IsLedger (sym db) h.ledger;
  trace = h.trace ++ keep_alive ∷ [];
  sent = more ∙ ap (λ l. l ++ keep_alive ∷ []) h.sent ∙ append_assoc base h.trace _;
  stream =
      subst (λ d. Stream d.events cursor (h.trace ++ keep_alive ∷ [])) (sym db)
        (alive h.stream refl);
}

send_events-Goes :
    (base : List Bytes) (page : List Event) (cursor : ℕ) (host : Host)
    → Streaming base cursor host
    → IsNext host.db.events cursor page
    → let (active, last, after) = send_events page cursor host in Goes base host last after
unfolding send_events
send_events-Goes base [] cursor host h next = record { streaming = h; sends = omega arith }
send_events-Goes base (e ∷ page) cursor host h (at, number, next) =
    elim (send_bytes-cases (render_event e) host) [
      | inl (failed, same, db, fewer) ↦
          rw (failed, send_events)
            (record {
              streaming =
                  kept-Streaming base cursor host (send_bytes (render_event e) host).1 same db h;
              sends = fewer;
            })
      | inr (ok, more, db, fewer) ↦
          let after = (send_bytes (render_event e) host).1 in
          let next' : IsNext after.db.events e.event_id page =
            subst (λ k. IsNext after.db.events k page) (sym number)
              (subst (λ d. IsNext d.events (suc cursor) page) (sym db) next) in
          let goes =
            send_events-Goes base page e.event_id after
              (subst (λ k. Streaming base k after) (sym number)
                (more-Streaming base cursor host after e more db at h))
              next' in
          rw (ok, send_events)
            (record { streaming = goes.streaming; sends = omega (arith, goes.sends) })
    ]

-- How the handler ends: with a stream, whether it returns or raises, and never without fuel.
abbrev pub Ends : List Bytes → Outcome → Type 0
Ends base (returned cursor host) = Streaming base cursor host
Ends base (raised host) = (cursor : ℕ) × Streaming base cursor host
Ends base out_of_fuel = ⊥

finish_round-Ends :
    (base : List Bytes) (bound : ℕ) (again : ℕ → Host → Outcome) (active : Bool) (cursor : ℕ)
    (host : Host)
    → ((c : ℕ) (h : Host) → length h.sends < bound → Streaming base c h → Ends base (again c h))
    → length host.sends ≤ bound
    → Streaming base cursor host
    → Ends base (finish_round again active cursor host)
unfolding finish_round
finish_round-Ends base bound again false cursor host continues few h = h
finish_round-Ends base bound again true cursor host continues few h =
    let after = (send_bytes keep_alive host).1 in
    elim (send_bytes-cases keep_alive host) [
      | inl (failed, same, db, _) ↦
          rw (failed, Ends) (kept-Streaming base cursor host after same db h)
      | inr (ok, more, db, fewer) ↦
          rw (ok, Ends)
            (continues cursor after (omega arith)
              (alive-Streaming base cursor host after more db h))
    ]

pub poll-Ends :
    (base : List Bytes) (fuel cursor : ℕ) (host : Host)
    → length host.sends < fuel
    → Streaming base cursor host
    → Ends base (poll fuel cursor host)
unfolding poll read_page
poll-Ends base zero cursor host enough h = elim enough [ ]
poll-Ends base (suc fuel) cursor host enough h =
    let loaded = (settle host).1 in
    let (ready, same_sends) = settle-Streaming base cursor host h in
    elim (load_event_page-cases loaded.db cursor (settle host).0 ready.ledger) [
      | inl lost ↦ rw (lost, poll) (cursor, ready)
      | inr found ↦
          let page = take 32 (drop cursor loaded.db.events) in
          let goes =
            send_events-Goes base page cursor loaded ready
              (page-IsNext 32 cursor loaded.db.events _ ready.ledger.numbered refl) in
          let few : length (send_events page cursor loaded).2.sends ≤ fuel =
            omega (arith, goes.sends, ap (λ l. length l) same_sends) in
          rw (found, poll)
            (finish_round-Ends base fuel (poll fuel) _ _ _
              (λ c h' fewer. poll-Ends base fuel c h' fewer) few goes.streaming)
    ]
