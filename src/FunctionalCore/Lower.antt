-- ===== src/FunctionalCore/Lower.antt =====
-- `lower_ascii` halves its range; it answers for every text, with each character in lower case.
use purepy.Base.{ℕ, ◌-◌, Text, take, drop}

-- The characters from `start` up to `stop`.
abbrev segment : Text → ℕ → ℕ → Text
segment text start stop = take (stop - start) (drop start text)
