-- ===== src/Semantics.antt =====
-- tools/differential_semantics.py: the tagged encoding of runtime values and the exact-type test; and
-- tools/function_runtime.py: the types that corpus functions declare, their sources, arguments and
-- recursive calls, and the cases that the worker reads and runs.
pub mod Values
pub mod Matching
pub mod Declared
pub mod Calls
pub mod Arguments
pub mod Sources
pub mod Examples
