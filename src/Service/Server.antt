-- ===== src/Service/Server.antt =====
-- src/app/handlers.py and src/app/server.py: one connection, from its first byte to its result.
pub mod Stream
pub mod Safety
pub mod Collect
use purepy.Base.{
  ℕ, zero, suc, Bool, true, false, not, ◌&&◌, Option, none, some, List, [], ◌∷◌, ◌++◌, leb, ltb,
  ◌==◌, if◌then◌else◌, Bytes, codes, length,
}
use purepy.Base.Int.{ℤ}
use purepy.Service.Types.{UpdatePlan, valid_update, Event, EventPage, Request, Route}
use purepy.Service.Http.{header_end, parse_request}
use purepy.Service.Router.{route}
use purepy.Service.Render.{response, render_user, render_update, render_event}
use purepy.Service.Host.{Host, receive_bytes, send_bytes, read_user, write_update, read_page}

-- The end of an invocation: its result, an exception, or that the fuel ran out.
pub data Outcome : Type 0 where
  returned : (value : ℕ) (host : Host) → Outcome
  raised : (host : Host) → Outcome
  out_of_fuel : Outcome

unfoldable pub lookup : ℤ → Host → Bytes × Host
lookup user_id host = let (result, after) = read_user user_id host in (render_user result, after)

unfoldable pub update : ℤ → ℤ → Host → Bytes × Host
update user_id amount host =
    let plan : UpdatePlan = record { user_id = user_id; amount = amount } in
    let (result, after) = write_update plan host in
    if not (valid_update plan)
    then (response (codes "400 Bad Request") (codes "increment must be between 1 and 1000\n"), host)
    else (render_update result, after)

-- The loop over a page: is the connection still active, and the cursor.
unfoldable pub send_events : List Event → ℕ → Host → Bool × ℕ × Host
send_events [] cursor host = (true, cursor, host)
send_events (event ∷ events) cursor host =
    let (active, after) = send_bytes (render_event event) host in
    elim active [ false ↦ (false, cursor, after) | true ↦ send_events events event.event_id after ]

abbrev pub stream_head : Bytes
stream_head =
    codes
      "HTTP/1.1 200 OK\r\nContent-Type: text/event-stream\r\nCache-Control: no-cache\r\nConnection: close\r\n\r\n"

abbrev pub keep_alive : Bytes
keep_alive = codes ": keep-alive\n\n"

-- The end of a round: the keep-alive, if the connection is still active, and the next round.
unfoldable pub finish_round : (ℕ → Host → Outcome) → Bool → ℕ → Host → Outcome
finish_round again false cursor host = returned cursor host
finish_round again true cursor host =
    let (alive, next) = send_bytes keep_alive host in
    elim alive [ false ↦ returned cursor next | true ↦ again cursor next ]

-- The `while active` loop; the sleep at its end only lets others run.
unfoldable pub poll : ℕ → ℕ → Host → Outcome
poll zero cursor host = out_of_fuel
poll (suc fuel) cursor host =
    let (page, loaded) = read_page cursor host in
    elim page [
      | none ↦ raised loaded
      | some found ↦
          let (active, last, after) = send_events found.events cursor loaded in
          finish_round (poll fuel) active last after
    ]

-- Every round but the last makes a send that succeeds, so more fuel than sends is enough.
unfoldable pub events : Host → Outcome
events host =
    let (active, after) = send_bytes stream_head host in
    elim active [ false ↦ returned 0 after | true ↦ poll (suc (length after.sends)) 0 after ]

-- The loop that collects the header: `none` is the end of the stream.
unfoldable pub collect : Bytes → List Bytes → Option Bytes × List Bytes
collect bytes [] =
    if header_end bytes == 0 && leb (length bytes) 8192 then (none, []) else (some bytes, [])
collect bytes (chunk ∷ incoming) = elim (header_end bytes == 0 && leb (length bytes) 8192) [
  | false ↦ (some bytes, chunk ∷ incoming)
  | true ↦ elim (length chunk == 0) [
    | true ↦ (none, incoming)
    | false ↦ collect (bytes ++ chunk) incoming
  ]
]

-- `send_bytes` at the end, and its code if it succeeded.
unfoldable pub reply : ℕ → Bytes → Host → Outcome
reply code body host =
    let (sent, after) = send_bytes body host in returned (if sent then code else 0) after

unfoldable pub dispatch : Route → Host → Outcome
dispatch selected host =
    if selected.code == 4
    then events host
    else if selected.code == 1
    then reply 1 (response (codes "200 OK") (codes "ok\n")) host
    else if selected.code == 2
    then (let (body, after) = lookup selected.user_id host in reply 2 body after)
    else if selected.code == 3
    then (let (body, after) = update selected.user_id selected.amount host in reply 3 body after)
    else if selected.code == 400
    then reply 400 (response (codes "400 Bad Request") (codes "bad request\n")) host
    else reply selected.code (response (codes "404 Not Found") (codes "route not found\n")) host

unfoldable pub handle_data : Bytes → Host → Outcome
handle_data bytes host =
    if ltb 8192 (length bytes)
    then reply 431
        (response (codes "431 Request Header Fields Too Large") (codes "request too large\n")) host
    else (elim (parse_request bytes) [
      | none ↦ raised host
      | some request ↦ dispatch (route request) host
    ])

unfoldable pub handle_connection : Host → Outcome
handle_connection host =
    let (collected, rest) = collect [] host.incoming in
    let ready = record host { incoming = rest } in
    elim collected [ none ↦ returned 0 ready | some bytes ↦ handle_data bytes ready ]
