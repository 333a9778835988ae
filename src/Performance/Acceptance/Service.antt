-- ===== src/Performance/Acceptance/Service.antt =====
-- `accept`: the tests of the service report, and the whole function.
use purepy.Base.{ℕ, ◌+◌, Bool, false, ◌&&◌, Option, none, some, List, [], ◌∷◌, ◌>>=◌, Text, codes}
use purepy.Base.Int.{ℤ, pos, pos_part}
use purepy.Base.Json.{Json, Fields, integer, text, arr, obj, get, or_null}
use purepy.Base.Python.{FloatTests, json_eq, truthy, item, require}
use purepy.Performance.{Number, whole, Arithmetic, Strings, number, at_path}
use purepy.Performance.Validation.{as_fields, as_count, repeated}
use purepy.Performance.Entries.{validate}
use purepy.Performance.Acceptance.{
  Label, service_label, Checks, add_checks, scale, as_int, is_true, agrees, maximum, minimum,
  accept_entries,
}

pub record Acceptance (F : Type 0) : Type 0 where
  pub name : Json F
  pub checks : Checks F

module _ {F : Type 0} (tests : FloatTests F) where
  -- The value at a path is there and equals the given one.
  abbrev pub holds : Option (Json F) → Json F → Bool
  holds none value = false
  holds (some found) value = json_eq tests found value

  abbrev pub holds_at : Json F → List Text → Json F → Bool
  holds_at report path value = holds (at_path path report) value

  abbrev pub is_zero : Json F → List Text → Bool
  is_zero report path = holds_at report path (integer (pos 0))

  -- Lines 76 to 81.
  unfoldable pub clean_resources : Json F → Bool
  clean_resources resources =
      is_zero resources (codes "client_tasks_remaining" ∷ [])
      && is_zero resources (codes "client_writers_remaining" ∷ [])
      && is_zero resources (codes "database_reads_remaining" ∷ [])
      && is_zero resources (codes "host_tasks_remaining" ∷ [])
      && is_true (item resources (codes "database_closed"))
      && is_true (item resources (codes "listener_closed"))

  -- The operations that succeeded, if all that were attempted did.
  unfoldable pub succeeded : Json F → Text → Option ℕ
  succeeded operations name = do
    op ← item operations name
    count ← as_count (item op (codes "succeeded"))
    all ← require (
        holds_at op (codes "attempted" ∷ []) (integer (pos count))
        && is_zero op (codes "failed" ∷ []))
    some count

  -- Lines 93 to 95: every stream got an event for each write.
  unfoldable pub all_delivered : Json F → ℕ → ℤ → Bool
  all_delivered service writes streams =
      holds_at service (codes "sse" ∷ codes "events_per_stream" ∷ [])
        (arr (repeated (pos_part streams) (integer (pos writes))))
      && holds_at service (codes "sse" ∷ codes "last_event_ids" ∷ [])
          (arr (repeated (pos_part streams) (integer (pos writes))))
      && holds_at service (codes "sse" ∷ codes "events_received" ∷ [])
          (integer (scale writes streams))
      && is_zero service (codes "sse" ∷ codes "pending_events" ∷ [])
      && holds_at service (codes "database_final" ∷ codes "balance" ∷ []) (integer (pos writes))
      && holds_at service (codes "database_final" ∷ codes "event_rows" ∷ []) (integer (pos writes))

  -- Lines 74 to 95.
  unfoldable pub sound_service : Json F → ℤ → Option (Unit {0})
  sound_service service streams = do
    quiet ← require (
        is_zero service (codes "errors" ∷ codes "count" ∷ [])
        && is_zero service (codes "host_error_count" ∷ []))
    resources ← item service (codes "resources_after_cleanup")
    clean ← require (clean_resources resources)
    operations ← item service (codes "operations")
    reads ← succeeded operations (codes "read")
    writes ← succeeded operations (codes "write")
    counted ← require (
        holds_at service (codes "requests" ∷ []) (integer (pos (reads + writes)))
        && holds_at service (codes "latency_ms" ∷ codes "count" ∷ [])
            (integer (pos (reads + writes))))
    require (all_delivered service writes streams)

  -- Lines 61 to 72.
  unfoldable pub same_machine : Json F → Fields F → Fields F → Bool
  same_machine service hardware options =
      holds_at service (codes "schema" ∷ []) (integer (pos 2))
      && is_true (item service (codes "ok"))
      && holds (item service (codes "platform")) (or_null (get hardware (codes "platform")))
      && holds (item service (codes "python")) (or_null (get hardware (codes "harness_python")))
      && (elim (as_fields (item service (codes "options"))) [
        | none ↦ false
        | some actual ↦ agrees tests options actual
      ])
      && holds_at service (codes "mode" ∷ []) (text (codes "duration"))

module _ {F : Type 0} (tests : FloatTests F) (math : Arithmetic F) (strings : Strings) where
  abbrev pub bounded :
      (Label F → Json F → Number F → Option (Checks F))
      → Text
      → Json F
      → List Text
      → Json F
      → Text
      → Option (Checks F)
  bounded check label service path policy name = do
    value ← at_path path service
    limit ← item policy name >>= number math
    check (service_label label) value limit

  -- Lines 97 to 103.
  unfoldable pub service_bounds : Json F → Json F → Option (Checks F)
  service_bounds service policy = do
    reads ← item service (codes "observed_overlapping_database_reads")
    overlapping ←
        minimum tests math strings (service_label (codes "overlapping_reads")) reads (whole (pos 2))
    requests ←
        bounded (minimum tests math strings) (codes "requests_per_second") service
          (codes "throughput_requests_per_second" ∷ []) policy (codes "minimum_requests_per_second")
    p95 ←
        bounded (maximum tests math strings) (codes "latency_p95_ms") service
          (codes "latency_ms" ∷ codes "p95" ∷ []) policy (codes "maximum_latency_p95_ms")
    p99 ←
        bounded (maximum tests math strings) (codes "latency_p99_ms") service
          (codes "latency_ms" ∷ codes "p99" ∷ []) policy (codes "maximum_latency_p99_ms")
    delivery ←
        bounded (maximum tests math strings) (codes "sse_delivery_p99_ms") service
          (codes "sse" ∷ codes "write_start_to_event_ms" ∷ codes "p99" ∷ []) policy
          (codes "maximum_sse_delivery_p99_ms")
    resident ←
        bounded (maximum tests math strings) (codes "peak_resident_bytes") service
          (codes "peak_resident_bytes" ∷ []) policy (codes "maximum_peak_resident_bytes")
    traced ←
        bounded (maximum tests math strings) (codes "traced_bytes_after_cleanup") service
          (codes "traced_python_bytes_after_cleanup" ∷ []) policy
          (codes "maximum_traced_bytes_after_cleanup")
    some (
        add_checks overlapping (
          add_checks requests
            (add_checks p95 (add_checks p99 (add_checks delivery (add_checks resident traced))))))

  unfoldable pub accept_service : Json F → Json F → Fields F → Option (Checks F)
  accept_service service policy hardware = do
    options ← as_fields (item policy (codes "options"))
    same ← require (same_machine tests service hardware options)
    duration ←
        bounded (minimum tests math strings) (codes "duration_seconds") service
          (codes "request_window_seconds" ∷ []) (obj options) (codes "duration")
    streams ←
        item policy (codes "options") >>= λ found. item found (codes "sse_connections") >>= as_int
    sound ← sound_service tests service streams
    bounds ← service_bounds service policy
    some (add_checks duration bounds)

  -- Lines 17 and 18, and 20 to 25.
  unfoldable pub fits_profile : Fields F → Fields F → Fields F → Bool
  fits_profile profile hardware matrix =
      json_eq tests (or_null (get profile (codes "schema"))) (integer (pos 1))
      && truthy tests (or_null (get profile (codes "name")))
      && (elim (as_fields (get profile (codes "hardware"))) [
        | none ↦ false
        | some expected ↦ agrees tests expected hardware
      ])
      && (elim (as_fields (get profile (codes "matrix"))) [
        | none ↦ false
        | some expected ↦ agrees tests expected matrix
      ])

  unfoldable pub accept : Fields F → Fields F → Json F → Option (Acceptance F)
  accept profile benchmark service = do
    entries ← validate tests math strings benchmark
    hardware ← as_fields (get benchmark (codes "hardware"))
    matrix ← as_fields (get benchmark (codes "matrix"))
    fits ← require (fits_profile profile hardware matrix)
    budgets ← as_fields (get profile (codes "verifier"))
    verified ← accept_entries tests math strings budgets entries
    policy ← get profile (codes "service")
    served ← accept_service service policy hardware
    some (record {
      name = or_null (get profile (codes "name"));
      checks = add_checks verified served;
    })
