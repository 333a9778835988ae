-- ===== src/Service/Host.antt =====
-- What surrounds one connection's invocation: host/network.py, and the database with the updates
-- that other connections make meanwhile. The environment is written out in advance: the chunks that
-- reads will return, whether each send will succeed, where each database operation will fail, and
-- which updates others commit before each database operation.
use purepy.Base.{ℕ, Bool, false, Option, List, [], ◌∷◌, ◌++◌, if◌then◌else◌, Bytes}
use purepy.Base.Int.{ℤ}
use purepy.Service.Types.{UserResult, UpdatePlan, UpdateResult, EventPage}
use purepy.Service.Database.{Fault, no_fault, Database, load_user, execute_update, load_event_page}

pub record Host : Type 0 where
  pub incoming : List Bytes
  pub sends : List Bool
  pub sent : List Bytes
  pub faults : List Fault
  pub others : List (List UpdatePlan)
  pub db : Database

-- `reader.read(4096)`: the next chunk, and b"" at the end of the stream or on an error.
unfoldable pub receive_bytes : Host → Bytes × Host
receive_bytes host = elim host.incoming [
  | [] ↦ ([], host)
  | chunk ∷ rest ↦ (chunk, record host { incoming = rest })
]

-- A send that succeeds has written its bytes; when the list is over the peer is gone.
unfoldable pub send_bytes : Bytes → Host → Bool × Host
send_bytes bytes host = elim host.sends [
  | [] ↦ (false, host)
  | ok ∷ rest ↦
      (ok, record host { sends = rest; sent = if ok then host.sent ++ bytes ∷ [] else host.sent })
]

unfoldable pub run_updates : Database → List UpdatePlan → Database
run_updates db [] = db
run_updates db (plan ∷ plans) = run_updates (execute_update db plan no_fault).1 plans

abbrev pub first_fault : List Fault → Fault
first_fault [] = no_fault
first_fault (fault ∷ _) = fault

abbrev pub rest_of {ℓ} : {A : Type ℓ} → List A → List A
rest_of [] = []
rest_of (_ ∷ rest) = rest

abbrev pub first_batch : List (List UpdatePlan) → List UpdatePlan
first_batch [] = []
first_batch (batch ∷ _) = batch

-- The updates of others before the next database operation, and the operation's fault.
unfoldable pub settle : Host → Fault × Host
unfolding run_updates
settle host = (
  first_fault host.faults,
  record host {
    faults = rest_of host.faults;
    others = rest_of host.others;
    db = run_updates host.db (first_batch host.others);
  },
)

unfoldable pub read_user : ℤ → Host → UserResult × Host
read_user id host =
    let (fault, ready) = settle host in
    let (result, db) = load_user ready.db id fault in (result, record ready { db = db })

unfoldable pub write_update : UpdatePlan → Host → UpdateResult × Host
write_update plan host =
    let (fault, ready) = settle host in
    let (result, db) = execute_update ready.db plan fault in (result, record ready { db = db })

-- `none`: the exception is not caught.
unfoldable pub read_page : ℕ → Host → Option EventPage × Host
read_page cursor host =
    let (fault, ready) = settle host in (load_event_page ready.db cursor fault, ready)
