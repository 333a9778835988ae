-- ===== src/Lib.antt =====
-- PurePy: models and proofs of the repository's Python programs.
--
-- The repository's verifier is written in Go. Its Python code is the reference programs of the
-- verified language under examples/, and the development tools under tools/. This library models
-- that Python code.
--
-- FunctionalCore models examples/functional_core/src/core.py: folds, persistent chains, ASCII
-- lower case, and the counting tree with the grouping of labels. Its functions keep their names;
-- the loops `while remaining` and `for item in items` are recursions on the chain and on the list.
-- Chains, Lower, Counts and Groups below it hold the proofs. The recursion of lower_ascii_range
-- has fuel, one more than the length of the text, which halving a range never uses up.
--
-- Life models examples/branching_life/src/life.py: worlds on a torus, rules, histories and forks.
-- The loops over range are Base.Loops.for_range, and an index out of range is none. Sizes, the
-- generation and the entropy are natural numbers, and cells are integers.
--
-- Service models examples/reference_service. Types, Http, Router, Render and Server are the
-- verified part, src/app: types.py and domain.py, http_parse.py, router.py, render.py, handlers.py
-- and server.py. Database is host/database.py, and Host is host/network.py with the environment of
-- one connection. A connection reads chunks (collect), parses (parse_request), routes (route), and
-- replies, updates the database or streams events (dispatch). What the environment does is written
-- out in advance: the chunks that reads return, which sends succeed, where database operations
-- raise, and which updates other connections commit before each database operation. The event
-- stream's loop has fuel, one more than the sends that are left, since each of its rounds but the
-- last makes a send that succeeds. SQLite is modelled by its two tables and the statements that
-- the source runs; balances have no 64-bit bound, and names hold no surrogates, so that their
-- encoding cannot raise. Cancellation, the lock, the worker threads and the capability tests are
-- not modelled: one database operation runs at a time.
--
-- LoadTest models a part of examples/reference_service/loadtest/load.py: Distribution is the class
-- of that name, Ledger the class Events with its acknowledgments (Ledger.Reports has `frame` and
-- any sequence of reports), and Frames the pattern SSE_EVENT. Floats and the random generator are
-- parameters. The loop `while self.ack_floor + 1 in self.acks_ahead` has fuel for the size of the
-- set, which each round makes smaller. Streams are indices in range, and a set is a list.
--
-- Semantics models a part of tools/differential_semantics.py and tools/function_runtime.py: Values
-- has encode_value, valid_value and decode_value, over the JSON of Base.Json, and Matching has
-- matches_type, whose recursion on the text of a type has fuel for the text's length, and Declared
-- has `_type_node`, on the nodes of `ast`. Calls has the search for recursive calls of
-- `_validated_tree`: sets are lists, and the depth of `visit` has as fuel one more than the number
-- of functions, since the active ones are distinct. Arguments has `_bounded_value` and
-- `_decode_argument`. Sources has `_name`, `_signature` and `parse_type`; below it Bodies and
-- Validated are `_validated_tree`, Worker is worker_case and the list of cases of runtime_worker,
-- and Runtime is runtime_case, where what a call of `probe` does is a parameter. So are ast.parse
-- and compile (Validated.Python), and a tree has what the checks read of it: the nodes of a
-- function, in ast.walk's order, are a list. Floats are a parameter, with `hex` and `fromhex`.
-- CPython's bound of 4300 digits on the texts of integers is modelled.
--
-- Gates models the gates that compare the verifier with CPython. Gates.Expressions is the rest of
-- tools/differential_semantics.py: requests, compare_case and run_gate. Gates.Functions is
-- tools/differential_functions.py: entries, replay, compare_case, run_gate and the artifact of its
-- failures; Functions.Worker joins it to the worker of Semantics.Sources. Gates.Modules is
-- compare_case and run_gate of tools/differential_modules.py with the types that they observe,
-- where a case has its fingerprint and its encoded values as fields (reading an annotation has
-- fuel for its length, which Types.Fuel shows to be enough), and of tools/module_runtime.py it has
-- select_cases (Run) and finish_coroutine (Coroutine, with the 64 rounds of the source).
-- Gates.Known and Gates.Results have known_value and read_results. The processes, the catalog, the
-- size of a request and, for the gate over functions, validate_case are parameters. Messages are
-- constructors, without the values that some of them print, and an exception is none. JSON is the
-- data type of Base.Json, and Base.Python has Python's == and truth of it.
--
-- Performance models tools/benchmark_compare.py: Validation and Entries are validate, Comparison
-- and its children compare with the budgets, the growth of the measures and the verdict;
-- Acceptance is `accept` of tools/performance_acceptance.py. Reports are JSON, and a ValueError is
-- none. CPython's arithmetic on integers and floats is a parameter, as are median, isclose, and
-- strip and lower of texts. Dictionaries by key are association lists whose keys are compared by
-- Python's ==; sorted is an insertion sort. The labels and numbers in messages are left out.
--
-- Unicode models a part of the generators of tables: Names is the data of
-- tools/generate_unicode_names.py (sorted names in blocks, each without what it shares with the
-- name before), and Identifiers is `ranges` of tools/generate_unicode_identifiers.py. A set and
-- the keys of a dictionary are lists.
--
-- Base holds what the parts share: tests on the native numbers, integers, lists, slices with
-- negative bounds, texts and bytes as lists of numbers, loops, decimal digits, UTF-8 and JSON.
--
-- Not modelled of the Python code are the scripts that start processes, measure them, run Python
-- code or write files (tools/benchmark.py, benchmark_process.py, package_binary.py,
-- robustness_campaign.py, spec_coverage.py, check_schema_contract.py, differential_syntax.py, the
-- execution budgets and imports of function_runtime.py and module_runtime.py,
-- examples/reference_service/host/main.py), the tables of cases, and the tests. The Go packages
-- under internal/ and cmd/ are another language's and are not modelled.
pub mod Base
pub mod FunctionalCore
pub mod Gates
pub mod Life
pub mod LoadTest
pub mod Performance
pub mod Semantics
pub mod Service
pub mod Unicode
