-- ===== src/Gates.antt =====
-- The differential gates: tools/differential_semantics.py, tools/differential_functions.py and
-- tools/differential_modules.py compare the verifier's verdicts with what CPython does.
pub mod Known
pub mod Results
pub mod Expressions
pub mod Functions
pub mod Modules
pub mod Examples
