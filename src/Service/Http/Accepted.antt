-- ===== src/Service/Http/Accepted.antt =====
-- Every request line is accepted: the loop of `parse_request` on the text of a line.
use purepy.Base.{ℕ, ◌≢◌, ◌∷◌, ◌++◌, Bytes, codes}
use purepy.Base.Int.{pos}
use purepy.Service.Http.{Offsets}

abbrev IsPlain : ℕ → Type 0
IsPlain c = (c ≢ 13) × (c ≢ 32)

-- The offsets in a request line.
abbrev line_offsets : ℕ → ℕ → ℕ → Offsets
line_offsets a b c = record { first_space = pos a; second_space = pos b; line_end = pos c }

abbrev version : Bytes
version = codes "HTTP/1.1"

abbrev IsNoEnd : ℕ → Type 0
IsNoEnd c = c ≢ 13

-- The line without its end.
abbrev before_end : Bytes → Bytes → Bytes
before_end m p = m ++ (32 ∷ (p ++ (32 ∷ version)))
