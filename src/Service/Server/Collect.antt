-- ===== src/Service/Server/Collect.antt =====
-- The loop that reads until the header ends: it reads no more than it needs, and stops in bounds.
use purepy.Base.{
  ◌+◌, ◌<◌, ◌≤◌, ◌≡◌, ◌≢◌, ◌⊎◌, ◌∙◌, refl, ap, sym, subst, arith, inl, inr, true, false, ◌&&◌, ◌==◌,
  leb, Option, none, some, List, [], ◌∷◌, ◌++◌, Bytes, length, length-append, append-nil,
  append_assoc, All, Bool-cases,
}
use mathlib.Core.List.{flatten}
use purepy.Service.Http.{header_end}
use purepy.Service.Server.{collect}

-- Reads return at most 4096 bytes.
abbrev pub IsChunk : Bytes → Type 0
IsChunk chunk = length chunk ≤ 4096

-- How `collect` ends.
abbrev pub Collected : Bytes → List Bytes → Option Bytes × List Bytes → Type 0
Collected bytes incoming (none, rest) = Unit
Collected bytes incoming (some whole, rest) =
    ((read : List Bytes) × (incoming ≡ read ++ rest) × (whole ≡ bytes ++ flatten read))
    × ((header_end whole ≢ 0) ⊎ (8192 < length whole))
    × (length whole ≤ 8192 + 4096)

stops :
    (bytes : Bytes)
    → (header_end bytes == 0 && leb (length bytes) 8192) ≡ false
    → (header_end bytes ≢ 0) ⊎ (8192 < length bytes)
stops bytes h = ground arith

collect-step :
    (bytes chunk : Bytes) (incoming : List Bytes)
    → (header_end bytes == 0 && leb (length bytes) 8192) ≡ true
    → (length chunk == 0) ≡ false
    → collect bytes (chunk ∷ incoming) ≡ collect (bytes ++ chunk) incoming
unfolding collect
collect-step bytes chunk incoming more some_bytes = ground arith

collect-stop :
    (bytes chunk : Bytes) (incoming : List Bytes)
    → (header_end bytes == 0 && leb (length bytes) 8192) ≡ false
    → collect bytes (chunk ∷ incoming) ≡ (some bytes, chunk ∷ incoming)
unfolding collect
collect-stop bytes chunk incoming stop = ground arith

collect-ended :
    (bytes chunk : Bytes) (incoming : List Bytes)
    → (header_end bytes == 0 && leb (length bytes) 8192) ≡ true
    → (length chunk == 0) ≡ true
    → collect bytes (chunk ∷ incoming) ≡ (none, incoming)
unfolding collect
collect-ended bytes chunk incoming more ended = ground arith

Collected-more :
    (bytes chunk : Bytes) (incoming : List Bytes) (result : Option Bytes × List Bytes)
    → Collected (bytes ++ chunk) incoming result
    → Collected bytes (chunk ∷ incoming) result
unfolding flatten
Collected-more bytes chunk incoming (none, rest) h = tt
Collected-more bytes chunk incoming (some whole, rest) ((read, taken, joined), stop, small) = (
  (chunk ∷ read, ap (λ l. chunk ∷ l) taken, joined ∙ append_assoc bytes chunk (flatten read)),
  stop,
  small,
)

-- If `collect` gives a text, it is what was held with the chunks that it took, in order, and the
-- other chunks are still to come; it has a header end or is too long; and it is never longer than
-- 12288 bytes.
pub collect_lem :
    (bytes : Bytes) (incoming : List Bytes)
    → length bytes ≤ 8192 + 4096
    → All IsChunk incoming
    → Collected bytes incoming (collect bytes incoming)
unfolding collect flatten
collect_lem bytes [] small h =
    elim (Bool-cases (header_end bytes == 0 && leb (length bytes) 8192)) [
      | inl more ↦ rw (more, Collected) tt
      | inr stop ↦
          rw (stop, Collected) (([], refl, sym (append-nil bytes)), stops bytes stop, small)
    ]
collect_lem bytes (chunk ∷ incoming) small (fits, h) =
    elim (Bool-cases (header_end bytes == 0 && leb (length bytes) 8192)) [
      | inr stop ↦
          subst (Collected bytes (chunk ∷ incoming)) (sym (collect-stop bytes chunk incoming stop))
            (([], refl, sym (append-nil bytes)), stops bytes stop, small)
      | inl more ↦ elim (Bool-cases (length chunk == 0)) [
        | inl ended ↦
            subst (Collected bytes (chunk ∷ incoming))
              (sym (collect-ended bytes chunk incoming more ended)) tt
        | inr some_bytes ↦
            let room : length bytes ≤ 8192 = ground arith in
            let longer : length (bytes ++ chunk) ≤ 8192 + 4096 =
              omega (arith, length-append bytes chunk) in
            let step : collect bytes (chunk ∷ incoming) ≡ collect (bytes ++ chunk) incoming =
              collect-step bytes chunk incoming more some_bytes in
            subst (Collected bytes (chunk ∷ incoming)) (sym step) (
              Collected-more bytes chunk incoming _
                (collect_lem (bytes ++ chunk) incoming longer h))
      ]
    ]
