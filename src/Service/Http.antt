-- ===== src/Service/Http.antt =====
-- src/app/http_parse.py: the end of the header, the request line, and decimal numbers in a path.
-- Offsets that the source sets to -1 before they are found are integers here too. `none` is an
-- index out of range.
pub mod Decimals
pub mod Lines
pub mod Accepted
use purepy.Base.{
  ℕ, zero, suc, ◌+◌, ◌-◌, ◌*◌, Bool, true, false, ◌&&◌, ◌||◌, not, Option, none, some, List, [],
  ◌∷◌, ltb, ◌==◌, if◌then◌else◌, ◌>>=◌, Bytes, codes, text_eq, length, get_elem?, take, drop,
}
use purepy.Base.Int.{ℤ, pos, negsuc, ◌+ℤ◌, eq_ℤ, ltb_ℤ, leb_ℤ}
use purepy.Base.Slice.{slice, slice_to}
use purepy.Service.Types.{Request}

abbrev pub minus_one : ℤ
minus_one = negsuc 0

abbrev pub crlf : Bytes
crlf = 13 ∷ 10 ∷ []

-- `data[offset:offset + n]`, at an offset that counts up from 0.
abbrev pub window : Bytes → ℕ → ℕ → Bytes
window bytes offset n = take n (drop offset bytes)

-- The loop of `header_end`, on the rounds left.
unfoldable pub find_end : ℕ → ℕ → Bytes → ℕ
find_end zero offset bytes = 0
find_end (suc n) offset bytes =
    let rest = find_end n (offset + 1) bytes in
    if text_eq (window bytes offset 4) (13 ∷ 10 ∷ 13 ∷ 10 ∷ []) then offset + 4 else rest

unfoldable pub header_end : Bytes → ℕ
unfolding find_end
header_end bytes = find_end (length bytes - 3) 0 bytes

-- The three offsets that the loop of `parse_request` looks for.
pub record Offsets : Type 0 where
  pub first_space : ℤ
  pub second_space : ℤ
  pub line_end : ℤ

abbrev pub no_offsets : Offsets
no_offsets = record { first_space = minus_one; second_space = minus_one; line_end = minus_one }

-- What the loop does at a byte that does not end the line: `none` is the `return` on a third space.
unfoldable pub see_byte : ℕ → ℕ → Offsets → Option Offsets
see_byte byte offset seen =
    if byte == 32
    then if eq_ℤ seen.first_space minus_one
      then some (record seen { first_space = pos offset })
      else if eq_ℤ seen.second_space minus_one
      then some (record seen { second_space = pos offset })
      else none
    else some seen

-- The loop of `parse_request`, on the rounds left; `some none` is its early `return`.
unfoldable pub scan_line : ℕ → ℕ → Bytes → Offsets → Option (Option Offsets)
scan_line zero offset bytes seen = some (some seen)
scan_line (suc n) offset bytes seen =
    if text_eq (window bytes offset 2) crlf
    then some (some (record seen { line_end = pos offset }))
    else elim (get_elem? bytes offset) [
      | none ↦ none
      | some byte ↦ elim (see_byte byte offset seen) [
        | none ↦ some none
        | some next ↦ scan_line n (offset + 1) bytes next
      ]
    ]

-- The loop over the characters of the path.
unfoldable pub path_ok : Bytes → Bool
path_ok [] = true
path_ok (c ∷ path) = not (ltb c 33 || ltb 126 c) && path_ok path

abbrev pub rejected : Request
rejected = record { valid = false; method = []; path = [] }

-- The tests behind the loop.
unfoldable pub check_line : Bytes → Offsets → Request
check_line bytes seen =
    let method = slice_to bytes seen.first_space in
    let path = slice bytes (seen.first_space +ℤ pos 1) seen.second_space in
    if leb_ℤ seen.first_space (pos 0)
      || leb_ℤ seen.second_space (seen.first_space +ℤ pos 1)
      || leb_ℤ seen.line_end seen.second_space
    then rejected
    else if not
        (text_eq (slice bytes (seen.second_space +ℤ pos 1) seen.line_end) (codes "HTTP/1.1"))
    then rejected
    else if not (text_eq method (codes "GET")) && not (text_eq method (codes "POST"))
    then rejected
    else if not (text_eq (take 1 path) (codes "/"))
    then rejected
    else if path_ok path
    then record { valid = true; method = method; path = path }
    else rejected

unfoldable pub parse_request : Bytes → Option Request
parse_request bytes =
    let end = header_end bytes in
    if end == 0 then some rejected else (do
      found ← scan_line (end - 1) 0 bytes no_offsets
      some (elim found [ none ↦ rejected | some seen ↦ check_line bytes seen ]))

-- The loop of `decimal`.
unfoldable pub decimal_loop : ℕ → Bytes → ℤ
decimal_loop result [] = pos result
decimal_loop result (c ∷ s) =
    if ltb c 48 || ltb 57 c then minus_one else decimal_loop (result * 10 + c - 48) s

unfoldable pub decimal : Bytes → ℤ
unfolding decimal_loop
decimal bytes =
    if length bytes == 0 || ltb 9 (length bytes) then minus_one else decimal_loop 0 bytes
