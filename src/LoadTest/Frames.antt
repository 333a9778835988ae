-- ===== src/LoadTest/Frames.antt =====
-- The pattern SSE_EVENT, which the load test reads events with.
pub mod RoundTrip
use purepy.Base.{
  ℕ, zero, suc, ◌∷◌, [], Bool, true, false, ◌&&◌, Option, none, some, leb, ◌==◌, if◌then◌else◌,
  ◌>>=◌, Bytes, codes, text_eq, length,
}
use purepy.Base.Decimal.{value}

-- What is left behind a literal, if it comes first.
unfoldable pub strip : Bytes → Bytes → Option Bytes
strip [] bytes = some bytes
strip (c ∷ literal) [] = none
strip (c ∷ literal) (b ∷ bytes) = let rest = strip literal bytes in if c == b then rest else none

-- The longest run of digits at the front, and the rest.
unfoldable pub span_digits : Bytes → Bytes × Bytes
span_digits [] = ([], [])
span_digits (b ∷ bytes) =
    let (digits, rest) = span_digits bytes in
    if leb 48 b && leb b 57 then (b ∷ digits, rest) else ([], b ∷ bytes)

-- `([1-9][0-9]*)` and `int` of the group, which raises above 4300 digits.
unfoldable pub positive_number : Bytes → Option (ℕ × Bytes)
positive_number [] = none
positive_number (b ∷ bytes) =
    let (digits, rest) = span_digits (b ∷ bytes) in
    if leb 49 b && leb b 57 && leb (length digits) 4300 then some (value 0 digits, rest) else none

-- `map(int, match.groups())`; `none` is the RuntimeError of a malformed event or a ValueError.
unfoldable pub parse_frame : Bytes → Option (ℕ × ℕ)
parse_frame frame = strip (codes "id: ") frame >>= λ first. positive_number first >>= λ identifier.
    strip (codes "\nevent: balance\ndata: user=1 balance=") identifier.1 >>= λ second.
    positive_number second >>= λ balance.
    if text_eq balance.1 (codes "\n\n") then some (identifier.0, balance.0) else none
