-- ===== src/Service/Examples.antt =====
-- Tests of the service, and the theorems at concrete requests and environments.
use purepy.Base.{
  ◌<◌, ◌≤◌, ◌≡◌, ◌↔◌, ◌⊎◌, refl, Bool, true, false, some, List, [], ◌∷◌, ◌++◌, Bytes, codes, length,
  All, text_eq, arith,
}
use purepy.Base.Int.{ℤ, pos, eq_ℤ, ◌+ℤ◌}
use purepy.Base.Decimal.{IsDigit, value, str, encode_utf8}
use purepy.Service.Types.{User, UpdatePlan, Event, Request, valid_update}
use purepy.Service.Http.{
  header_end, scan_line, see_byte, check_line, path_ok, parse_request, decimal, rejected,
}
use purepy.Service.Http.Decimals.{decimal_iff}
use purepy.Service.Http.Lines.{parse_request_total}
use purepy.Service.Router.{route, route_user, find_slash}
use purepy.Service.Router.Paths.{users}
use purepy.Service.Render.{response, render_update, render_event}
use purepy.Service.Database.{
  at_insert, Database, opened, find_user, add_balance, execute_update, update_rows, after_cursor,
  load_event_page, page_after,
}
use purepy.Service.Database.Ledger.{execute_update_atomic}
use purepy.Service.Host.{Host, send_bytes, read_page, write_update, settle}
use purepy.Service.Server.{
  returned, collect, events, poll, finish_round, send_events, handle_connection, handle_data,
  dispatch, reply, update, stream_head, keep_alive,
}
use purepy.Service.Server.Collect.{Collected, collect_lem}

abbrev get_events : Bytes
get_events = codes "GET /events HTTP/1.1\r\nHost: h\r\n\r\n"

abbrev post_update : Bytes
post_update = codes "POST /users/1/increment/25 HTTP/1.1\r\n\r\n"

server : Unit {0}
unfolding handle_connection handle_data dispatch reply update collect header_end parse_request
    scan_line see_byte check_line path_ok route route_user find_slash decimal write_update settle
    execute_update update_rows find_user add_balance send_bytes valid_update render_update response
    encode_utf8 str ◌+ℤ◌ events poll finish_round send_events read_page load_event_page page_after
    after_cursor render_event text_eq
server = tt

abbrev host_of : Bytes → List Bool → List (List UpdatePlan) → Host
host_of bytes sends others = record {
  incoming = bytes ∷ [];
  sends = sends;
  sent = [];
  faults = [];
  others = others;
  db = opened;
}

abbrev plan_25 : UpdatePlan
plan_25 = record { user_id = pos 1; amount = pos 25 }

abbrev event_25 : Event
event_25 = record { event_id = 1; user_id = pos 1; balance = pos 25 }

abbrev ada_25 : Database
ada_25 = record opened {
  users =
      record { user_id = pos 1; name = codes "Ada"; balance = pos 25 }
      ∷ record { user_id = pos 2; name = codes "Grace"; balance = pos 0 }
      ∷ [];
  events = event_25 ∷ [];
  sequence = 1;
}

post_update_test :
    handle_connection (host_of post_update (true ∷ []) [])
    ≡ returned 3 (record {
      incoming = [];
      sends = [];
      sent = response (codes "200 OK") (codes "balance=25\n") ∷ [];
      faults = [];
      others = [];
      db = ada_25;
    })
unfolding server
post_update_test = refl

-- Another connection's update, committed before the second poll, is delivered there.
get_events_test :
    handle_connection
      (host_of get_events (true ∷ true ∷ true ∷ false ∷ []) ([] ∷ (plan_25 ∷ []) ∷ []))
    ≡ returned 1 (record {
      incoming = [];
      sends = [];
      sent =
          stream_head
          ∷ keep_alive
          ∷ codes "id: 1\nevent: balance\ndata: user=1 balance=25\n\n"
          ∷ [];
      faults = [];
      others = [];
      db = ada_25;
    })
unfolding server
get_events_test = refl

decimal_iff_example : (decimal (codes "0042") ≡ pos 42) ↔ (
    (0 < length (codes "0042"))
    × (length (codes "0042") ≤ 9)
    × All IsDigit (codes "0042")
    × (42 ≡ value 0 (codes "0042")))
decimal_iff_example = decimal_iff (codes "0042") 42

parse_request_total_example :
    (r : Request) × (parse_request get_events ≡ some r) × ((r.valid ≡ true) ⊎ (r ≡ rejected))
parse_request_total_example = parse_request_total get_events

abbrev update_request : Request
update_request = record {
  valid = true;
  method = codes "POST";
  path = codes "/users/1/increment/25";
}

execute_update_atomic_example :
    let (result, after) = execute_update opened plan_25 at_insert in
    ((result.applied ≡ false) × (after ≡ opened))
    ⊎ ((result.applied ≡ true)
        × ((u : User) × (find_user (pos 1) opened.users ≡ some u)
            × (result.balance ≡ u.balance +ℤ pos 25)
            × (after.events
                ≡ [] ++ record { event_id = 1; user_id = pos 1; balance = result.balance } ∷ [])
            × (find_user (pos 1) after.users ≡ some (record u { balance = result.balance }))
            × ((other : ℤ)
                → eq_ℤ (pos 1) other ≡ false
                → find_user other after.users ≡ find_user other opened.users)))
execute_update_atomic_example = execute_update_atomic opened plan_25 at_insert

collect_lem_example : Collected [] (get_events ∷ []) (collect [] (get_events ∷ []))
collect_lem_example = collect_lem [] (get_events ∷ []) (omega arith) (omega arith)

abbrev watching : Host
watching = host_of get_events (true ∷ true ∷ true ∷ false ∷ []) ([] ∷ (plan_25 ∷ []) ∷ [])
