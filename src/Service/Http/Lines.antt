-- ===== src/Service/Http/Lines.antt =====
-- `parse_request` accepts exactly the request lines, and never raises.
use purepy.Base.{
  ℕ, zero, suc, ◌+◌, ◌-◌, ◌<◌, ◌≤◌, ◌≡◌, ◌⊎◌, ◌∙◌, refl, ap, sym, arith, inl, inr, true, Option,
  none, some, [], ◌∷◌, ◌++◌, ◌==◌, Bytes, codes, text_eq, eq_of_text_eq, subst, Option-cases,
  length, get_elem?, take, drop, drop_split, drop-get_elem?, take-append-drop, get_elem?-lt,
  Bool-cases,
}
use purepy.Base.Int.{ℤ, pos, negsuc, pos-next}
use purepy.Service.Types.{Request}
use purepy.Service.Http.{
  window, crlf, find_end, header_end, Offsets, no_offsets, see_byte, scan_line, path_ok, rejected,
  check_line, parse_request,
}

abbrev pub IsMethod : Bytes → Type 0
IsMethod m = (m ≡ codes "GET") ⊎ (m ≡ codes "POST")

-- "/" and then printable ASCII characters, none of them a space.
abbrev pub IsPath : Bytes → Type 0
IsPath p = (take 1 p ≡ codes "/") × (path_ok p ≡ true)

-- A request line, and what follows it.
abbrev pub request_line : Bytes → Bytes → Bytes → Bytes
request_line m p rest = m ++ (32 ∷ (p ++ (32 ∷ (codes "HTTP/1.1" ++ (13 ∷ 10 ∷ rest)))))

-- What the loop has found is there.
abbrev pub HasSpace : Bytes → ℤ → Type 0
HasSpace bytes (pos a) = get_elem? bytes a ≡ some 32
HasSpace bytes (negsuc a) = Unit

abbrev pub HasEnd : Bytes → ℤ → Type 0
HasEnd bytes (pos a) = window bytes a 2 ≡ crlf
HasEnd bytes (negsuc a) = Unit

abbrev pub IsSeen : Bytes → Offsets → Type 0
IsSeen bytes seen =
    HasSpace bytes seen.first_space × HasSpace bytes seen.second_space × HasEnd bytes seen.line_end

see_byte-IsSeen :
    (bytes : Bytes) (byte offset : ℕ) (seen next : Offsets)
    → get_elem? bytes offset ≡ some byte
    → IsSeen bytes seen
    → see_byte byte offset seen ≡ some next
    → IsSeen bytes next
unfolding see_byte
see_byte-IsSeen bytes byte offset seen next found h e = ground arith

pub scan_line-IsSeen :
    (n offset : ℕ) (bytes : Bytes) (seen next : Offsets)
    → IsSeen bytes seen
    → scan_line n offset bytes seen ≡ some (some next)
    → IsSeen bytes next
unfolding scan_line
scan_line-IsSeen zero offset bytes seen next h e =
    let same : seen ≡ next = cc in subst (IsSeen bytes) same h
scan_line-IsSeen (suc n) offset bytes seen next h e =
    elim (Bool-cases (text_eq (window bytes offset 2) crlf)) [
      | inl ends ↦
          let last : Offsets = record seen { line_end = pos offset } in
          let e' : some (some last) ≡ some (some next) = rw (ends, scan_line) at e in
          let same : last ≡ next = cc in
          subst (IsSeen bytes) same (h.0, h.1, eq_of_text_eq _ _ ends)
      | inr more ↦ elim (Option-cases (get_elem? bytes offset)) [
        | inl missing ↦ absurd (let e' : none ≡ some (some next) = rw (more, missing) at e in cc)
        | inr (byte, found) ↦ elim (Option-cases (see_byte byte offset seen)) [
          | inl third ↦
              absurd (let e' : some none ≡ some (some next) = rw (more, found, third) at e in cc)
          | inr (u, saw) ↦
              scan_line-IsSeen n (offset + 1) bytes u next
                (see_byte-IsSeen bytes byte offset seen u found h saw) (rw (more, found, saw) at e)
        ]
      ]
    ]

-- The loop reads no byte out of range.
scan_line_total :
    (n offset : ℕ) (bytes : Bytes) (seen : Offsets)
    → offset + n ≤ length bytes
    → (r : Option Offsets) × (scan_line n offset bytes seen ≡ some r)
unfolding scan_line
scan_line_total zero offset bytes seen h = (some seen, refl)
scan_line_total (suc n) offset bytes seen h =
    elim (Bool-cases (text_eq (window bytes offset 2) crlf)) [
      | inl ends ↦ (some (record seen { line_end = pos offset }), rw ends)
      | inr more ↦
          let (byte, found) = get_elem?-lt bytes offset (omega arith) in
          elim (Option-cases (see_byte byte offset seen)) [
            | inl third ↦ (none, rw (more, found, third))
            | inr (u, saw) ↦
                let (r, ran) = scan_line_total n (offset + 1) bytes u (omega arith) in
                (r, rw (more, found, saw) ran)
          ]
    ]

-- An end that is found has the four bytes before it.
pub find_end_lem :
    (n offset e : ℕ) (bytes : Bytes)
    → find_end n offset bytes ≡ suc e
    → (k : ℕ) × (suc e ≡ k + 4)
      × (offset ≤ k)
      × (k < offset + n)
      × (window bytes k 4 ≡ 13 ∷ 10 ∷ 13 ∷ 10 ∷ [])
unfolding find_end
find_end_lem zero offset e bytes h = absurd (omega arith)
find_end_lem (suc n) offset e bytes h =
    elim (Bool-cases (text_eq (window bytes offset 4) (13 ∷ 10 ∷ 13 ∷ 10 ∷ []))) [
      | inl found ↦
          let h' : offset + 4 ≡ suc e = rw (found, find_end) at h in
          (offset, omega arith, omega arith, omega arith, eq_of_text_eq _ _ found)
      | inr more ↦
          let h' : find_end n (offset + 1) bytes ≡ suc e = rw (more, find_end) at h in
          let (k, same, low, high, at_k) = find_end_lem n (offset + 1) e bytes h' in
          (k, same, omega arith, omega arith, at_k)
    ]

header_end-le : (bytes : Bytes) → header_end bytes ≤ length bytes
unfolding header_end
header_end-le bytes = go (find_end (length bytes - 3) 0 bytes) refl
  where
    go : (e : ℕ) → find_end (length bytes - 3) 0 bytes ≡ e → e ≤ length bytes
    go zero h = omega arith
    go (suc e) h =
        let (k, same, low, high, at_k) = find_end_lem (length bytes - 3) 0 e bytes h in omega arith

check_line-valid_or_rejected :
    (bytes : Bytes) (seen : Offsets)
    → ((check_line bytes seen).valid ≡ true) ⊎ (check_line bytes seen ≡ rejected)
unfolding check_line
check_line-valid_or_rejected bytes seen = ground arith

-- `parse_request` never raises: every input gives a request, which is valid or the empty rejected
-- one.
pub parse_request_total :
    (bytes : Bytes)
    → (r : Request) × (parse_request bytes ≡ some r) × ((r.valid ≡ true) ⊎ (r ≡ rejected))
unfolding parse_request
parse_request_total bytes = elim (Bool-cases (header_end bytes == 0)) [
  | inl none_found ↦ (rejected, rw none_found, inr refl)
  | inr found ↦
      let size = header_end-le bytes in
      let (r, ran) = scan_line_total (header_end bytes - 1) 0 bytes no_offsets (omega arith) in
      elim (Option-cases r) [
        | inl early ↦ (rejected, rw (found, ran, early), inr refl)
        | inr (seen, offsets) ↦ (
          check_line bytes seen,
          rw (found, ran, offsets),
          check_line-valid_or_rejected bytes seen,
        )
      ]
]

-- The source's slices, at offsets in order.
line_parts :
    (bytes : Bytes) (a b c : ℕ)
    → a + 1 ≤ b
    → b + 1 ≤ c
    → get_elem? bytes a ≡ some 32
    → get_elem? bytes b ≡ some 32
    → window bytes c 2 ≡ crlf
    → bytes
      ≡ take a bytes
        ++ (32
            ∷ (take (b - (a + 1)) (drop (a + 1) bytes)
                ++ (32
                    ∷ (take (c - (b + 1)) (drop (b + 1) bytes)
                        ++ (13 ∷ 10 ∷ drop 2 (drop c bytes))))))
line_parts bytes a b c h k first second ends =
    sym (take-append-drop a bytes)
    ∙ ap (λ l. take a bytes ++ l)
        (drop-get_elem? a bytes 32 first
          ∙ ap (λ l. 32 ∷ l)
              (ap (λ n. drop n bytes) (let e : suc a ≡ a + 1 = omega arith in e)
                ∙ drop_split (a + 1) b bytes h
                ∙ ap (λ l. take (b - (a + 1)) (drop (a + 1) bytes) ++ l)
                    (drop-get_elem? b bytes 32 second
                      ∙ ap (λ l. 32 ∷ l)
                          (ap (λ n. drop n bytes) (let e : suc b ≡ b + 1 = omega arith in e)
                            ∙ drop_split (b + 1) c bytes k
                            ∙ ap (λ l. take (c - (b + 1)) (drop (b + 1) bytes) ++ l)
                                (sym (take-append-drop 2 (drop c bytes))
                                  ∙ ap (λ l. l ++ drop 2 (drop c bytes)) ends)))))

-- What `check_line` has tested when it accepts.
abbrev pub Accepts : Bytes → Bytes → Bytes → Type 0
Accepts bytes m p = IsMethod m × IsPath p × ((rest : Bytes) × (bytes ≡ request_line m p rest))

-- The tests of `check_line`, at offsets that are all found.
abbrev Passed : Bytes → ℕ → ℕ → ℕ → Bytes → Bytes → Type 0
Passed bytes a b c m p =
    (a + 1 ≤ b)
    × (b + 1 ≤ c)
    × (text_eq (take (c - (b + 1)) (drop (b + 1) bytes)) (codes "HTTP/1.1") ≡ true)
    × (m ≡ take a bytes)
    × (p ≡ take (b - (a + 1)) (drop (a + 1) bytes))
    × ((text_eq (take a bytes) (codes "GET") ≡ true)
        ⊎ (text_eq (take a bytes) (codes "POST") ≡ true))
    × (text_eq (take 1 (take (b - (a + 1)) (drop (a + 1) bytes))) (codes "/") ≡ true)
    × (path_ok (take (b - (a + 1)) (drop (a + 1) bytes)) ≡ true)

check_line-Passed :
    (bytes : Bytes) (a b c : ℕ) (m p : Bytes)
    → check_line bytes (record { first_space = pos a; second_space = pos b; line_end = pos c })
      ≡ record { valid = true; method = m; path = p }
    → Passed bytes a b c m p
unfolding check_line
check_line-Passed bytes a b c m p h = let h' = rw (pos-next a, pos-next b) at h in ground arith

pub check_line-Accepts :
    (bytes : Bytes) (f s l : ℤ) (m p : Bytes)
    → IsSeen bytes (record { first_space = f; second_space = s; line_end = l })
    → check_line bytes (record { first_space = f; second_space = s; line_end = l })
      ≡ record { valid = true; method = m; path = p }
    → Accepts bytes m p
unfolding check_line
check_line-Accepts bytes (pos a) (pos b) (pos c) m p (first, second, ends) h =
    let (ab, bc, version, method, path, either, slash, printable) =
      check_line-Passed bytes a b c m p h in
    let chosen : IsMethod (take a bytes) = elim either [
      | inl e ↦ inl (eq_of_text_eq _ _ e)
      | inr e ↦ inr (eq_of_text_eq _ _ e)
    ] in
    (
      rw method chosen,
      (rw path (eq_of_text_eq _ _ slash), rw path printable),
      (
        drop 2 (drop c bytes),
        line_parts bytes a b c ab bc first second ends
            ∙ rw (method, path, eq_of_text_eq _ _ version),
      ),
    )
check_line-Accepts bytes (negsuc a) s l m p seen h = ground arith
check_line-Accepts bytes (pos a) (negsuc b) l m p seen h = ground (arith, pos-next a)
check_line-Accepts bytes (pos a) (pos b) (negsuc c) m p seen h = ground (arith, pos-next a)
