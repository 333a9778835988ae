-- ===== src/Unicode.antt =====
-- tools/generate_unicode_names.py and tools/generate_unicode_identifiers.py: the binary tables that
-- are generated from the Unicode database. Texts and bytes are lists of numbers; `none` is an exception.
pub mod Names
pub mod Identifiers
pub mod Examples
