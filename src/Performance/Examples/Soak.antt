-- ===== src/Performance/Examples/Soak.antt =====
-- A profile that a small report and a soak of the service meet, and the theorem at it.
use purepy.Base.{ℕ, true, [], ◌∷◌, codes}
use purepy.Base.Json.{Json, Fields, boolean, arr, obj, nil, cons}
use purepy.Performance.Acceptance.Service.{Acceptance}
use purepy.Performance.Examples.{object, string, count}

abbrev limit : Json (Unit {0})
limit = obj (object ((codes "fixed", count 4) ∷ (codes "per_module", count 2) ∷ []))

abbrev budgets : Fields (Unit {0})
budgets = object (
    (codes "tiny", obj (object ((codes "wall_ms", limit) ∷ (codes "peak_rss_bytes", limit) ∷ [])))
    ∷ [])

abbrev profile : Fields (Unit {0})
profile = object (
    (codes "schema", count 1)
    ∷ (codes "name", string (codes "small"))
    ∷ (codes "hardware", obj (object ((codes "processor", string (codes "fast")) ∷ [])))
    ∷ (codes "matrix", obj (object ((codes "repeats", count 1) ∷ [])))
    ∷ (codes "verifier", obj budgets)
    ∷ (
      codes "service",
      obj (
          object (
            (
              codes "options",
              obj (object ((codes "duration", count 3) ∷ (codes "sse_connections", count 2) ∷ [])),
            )
            ∷ (codes "minimum_requests_per_second", count 1)
            ∷ (codes "maximum_latency_p95_ms", count 9)
            ∷ (codes "maximum_latency_p99_ms", count 9)
            ∷ (codes "maximum_sse_delivery_p99_ms", count 9)
            ∷ (codes "maximum_peak_resident_bytes", count 9)
            ∷ (codes "maximum_traced_bytes_after_cleanup", count 9)
            ∷ [])),
    )
    ∷ [])

abbrev operation : ℕ → Json (Unit {0})
operation n = obj (
    object (
      (codes "succeeded", count n) ∷ (codes "attempted", count n) ∷ (codes "failed", count 0) ∷ []))

abbrev twice : ℕ → Json (Unit {0})
twice n = arr (cons (count n) (cons (count n) nil))

-- Five reads and three writes, with two streams.
abbrev soak : Json (Unit {0})
soak = obj (
    object (
      (codes "schema", count 2)
      ∷ (codes "ok", boolean true)
      ∷ (codes "platform", string (codes "p"))
      ∷ (codes "python", string (codes "3.14"))
      ∷ (
        codes "options",
        obj (object ((codes "duration", count 3) ∷ (codes "sse_connections", count 2) ∷ [])),
      )
      ∷ (codes "mode", string (codes "duration"))
      ∷ (codes "request_window_seconds", count 3)
      ∷ (codes "errors", obj (object ((codes "count", count 0) ∷ [])))
      ∷ (codes "host_error_count", count 0)
      ∷ (
        codes "resources_after_cleanup",
        obj (
            object (
              (codes "client_tasks_remaining", count 0)
              ∷ (codes "client_writers_remaining", count 0)
              ∷ (codes "database_reads_remaining", count 0)
              ∷ (codes "host_tasks_remaining", count 0)
              ∷ (codes "database_closed", boolean true)
              ∷ (codes "listener_closed", boolean true)
              ∷ [])),
      )
      ∷ (
        codes "operations",
        obj (object ((codes "read", operation 5) ∷ (codes "write", operation 3) ∷ [])),
      )
      ∷ (codes "requests", count 8)
      ∷ (
        codes "latency_ms",
        obj (
            object
              ((codes "count", count 8) ∷ (codes "p95", count 2) ∷ (codes "p99", count 2) ∷ [])),
      )
      ∷ (
        codes "sse",
        obj (
            object (
              (codes "events_per_stream", twice 3)
              ∷ (codes "last_event_ids", twice 3)
              ∷ (codes "events_received", count 6)
              ∷ (codes "pending_events", count 0)
              ∷ (codes "write_start_to_event_ms", obj (object ((codes "p99", count 2) ∷ [])))
              ∷ [])),
      )
      ∷ (
        codes "database_final",
        obj (object ((codes "balance", count 3) ∷ (codes "event_rows", count 3) ∷ [])),
      )
      ∷ (codes "observed_overlapping_database_reads", count 2)
      ∷ (codes "throughput_requests_per_second", count 2)
      ∷ (codes "peak_resident_bytes", count 2)
      ∷ (codes "traced_python_bytes_after_cleanup", count 2)
      ∷ []))

-- Two budgets in four phases, and eight of the service.
abbrev met : Acceptance (Unit {0})
met = record { name = string (codes "small"); checks = record { checked = 16; failures = [] } }
