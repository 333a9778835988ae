-- ===== src/LoadTest/Frames/RoundTrip.antt =====
-- The frames that the service renders are the ones that the load test reads.
use purepy.Base.{
  ℕ, zero, suc, ◌/◌, ltb, ltb→lt, Bool-cases, inl, inr, ◌≤◌, ◌<◌, ◌∷◌, [], ◌++◌, Bool, true, ◌&&◌,
  some, Bytes, Text, codes, text_eq_refl, length, All, All-append, ◌≡◌, refl, ap, arith, ◌∙◌,
}
use purepy.Base.Int.{pos}
use purepy.Base.Decimal.{
  str, digits, digits-IsDigit, IsDigit, IsAscii, value, value-digits, encode_utf8-ascii,
}
use purepy.Service.Render.{render_event}
use purepy.LoadTest.Frames.{strip, span_digits, positive_number, parse_frame}

strip-append : (literal rest : Bytes) → strip literal (literal ++ rest) ≡ some rest
unfolding strip
strip-append [] rest = refl
strip-append (c ∷ literal) rest = ground (arith, strip-append literal rest)

-- Digits with no digit behind them.
span_digits-append :
    (ds : Bytes) (c : ℕ) (rest : Bytes)
    → All IsDigit ds
    → c < 48
    → span_digits (ds ++ c ∷ rest) ≡ (ds, c ∷ rest)
unfolding span_digits
span_digits-append [] c rest h k = ground arith
span_digits-append (d ∷ ds) c rest h k =
    ground (arith, h.0.0, h.0.1, span_digits-append ds c rest h.1 k)

-- The first digit of a positive number is not 0.
IsLeading : Bytes → Type 0
IsLeading [] = ⊥
IsLeading (c ∷ s) = (49 ≤ c) × (c ≤ 57)

IsLeading-append : (s t : Bytes) → IsLeading s → IsLeading (s ++ t)
unfolding IsLeading
IsLeading-append [] t l = elim l [ ]
IsLeading-append (c ∷ s) t l = l

digits-IsLeading : (fuel n : ℕ) → n < fuel → 0 < n → IsLeading (digits fuel n)
unfolding IsLeading digits
digits-IsLeading (suc fuel) n h p = elim (Bool-cases (ltb n 10)) [
  | inl small ↦ rw (small, IsLeading) (let q = ltb→lt _ _ small in (omega arith, omega arith))
  | inr large ↦
      rw (large, IsLeading)
        (IsLeading-append (digits fuel (n / 10)) _
          (digits-IsLeading fuel (n / 10) (omega arith) (ground arith)))
]
digits-IsLeading zero n h p = elim h [ ]

positive_number-append :
    (ds : Bytes) (c : ℕ) (rest : Bytes)
    → All IsDigit ds
    → IsLeading ds
    → length ds ≤ 4300
    → c < 48
    → positive_number (ds ++ c ∷ rest) ≡ some (value 0 ds, c ∷ rest)
unfolding positive_number IsLeading
positive_number-append [] c rest h l b k = elim l [ ]
positive_number-append (d ∷ ds) c rest h l b k =
    rw (span_digits-append (d ∷ ds) c rest h k) (ground (arith, l.0, l.1, b))

digits-IsAscii : (s : Text) → All IsDigit s → All IsAscii s
digits-IsAscii [] h = tt
digits-IsAscii (c ∷ s) h = ((let p = h.0.1 in omega arith), digits-IsAscii s h.1)

-- `str` of a positive number of at most 4300 digits, with a byte below 48 behind it.
positive_number-str :
    (n c : ℕ) (rest : Bytes)
    → 0 < n
    → length (str (pos n)) ≤ 4300
    → c < 48
    → positive_number (str (pos n) ++ c ∷ rest) ≡ some (n, c ∷ rest)
unfolding str
positive_number-str n c rest p b k =
    positive_number-append (digits (suc n) n) c rest (digits-IsDigit (suc n) n)
      (digits-IsLeading (suc n) n (omega arith) p) b k
    ∙ ap (λ v. some (v, c ∷ rest)) (value-digits (suc n) n (omega arith))

str-IsAscii : (n : ℕ) → All IsAscii (str (pos n))
unfolding str
str-IsAscii n = digits-IsAscii (digits (suc n) n) (digits-IsDigit (suc n) n)

all_ascii : Bytes → Bool
all_ascii [] = true
all_ascii (c ∷ s) = ltb c 128 && all_ascii s

all_ascii-IsAscii : (s : Bytes) → all_ascii s ≡ true → All IsAscii s
unfolding all_ascii
all_ascii-IsAscii [] h = tt
all_ascii-IsAscii (c ∷ s) h = (ground (arith, h), all_ascii-IsAscii s (ground (arith, h)))

abbrev middle : Bytes
middle = codes "\nevent: balance\ndata: user=1 balance="

frame_text : ℕ → ℕ → Bytes
frame_text id balance =
    codes "id: " ++ (str (pos id) ++ (middle ++ (str (pos balance) ++ codes "\n\n")))

frame_text-IsAscii : (id balance : ℕ) → All IsAscii (frame_text id balance)
unfolding frame_text all_ascii
frame_text-IsAscii id balance =
    All-append IsAscii (codes "id: ") _ (all_ascii-IsAscii (codes "id: ") refl) (
      All-append IsAscii (str (pos id)) _ (str-IsAscii id) (
        All-append IsAscii middle _ (all_ascii-IsAscii middle refl) (
          All-append IsAscii (str (pos balance)) _ (str-IsAscii balance)
            (all_ascii-IsAscii (codes "\n\n") refl))))

parse_frame-text :
    (id balance : ℕ)
    → 0 < id
    → length (str (pos id)) ≤ 4300
    → 0 < balance
    → length (str (pos balance)) ≤ 4300
    → parse_frame (frame_text id balance) ≡ some (id, balance)
unfolding parse_frame frame_text
parse_frame-text id balance p b q c =
    rw
      (
        strip-append (codes "id: ")
            (str (pos id) ++ (middle ++ (str (pos balance) ++ codes "\n\n"))),
        positive_number-str id 10 _ p b (omega arith),
        strip-append middle (str (pos balance) ++ codes "\n\n"),
        positive_number-str balance 10 (10 ∷ []) q c (omega arith),
        text_eq_refl (codes "\n\n"),
      )
      refl

render_event-text :
    (id balance : ℕ)
    → render_event (record { event_id = id; user_id = pos 1; balance = pos balance })
      ≡ frame_text id balance
unfolding render_event frame_text str digits
render_event-text id balance =
    encode_utf8-ascii (frame_text id balance) (frame_text-IsAscii id balance)

-- The frame that the service renders for an event of user 1 is read back: its identifier and its
-- balance, if both are positive and have at most 4300 digits.
pub parse_frame-render_event :
    (id balance : ℕ)
    → 0 < id
    → length (str (pos id)) ≤ 4300
    → 0 < balance
    → length (str (pos balance)) ≤ 4300
    → parse_frame (render_event (record { event_id = id; user_id = pos 1; balance = pos balance }))
      ≡ some (id, balance)
parse_frame-render_event id balance p b q c =
    ap parse_frame (render_event-text id balance) ∙ parse_frame-text id balance p b q c
