-- ===== src/Core/Reader/Span.antt =====
-- `readBytes`, which does not look at the end of the buffer.
use rive_cpp_legacy.Prelude.{ℕ, ◌+◌, ◌^◌, ◌≤◌, ◌<◌, ◌≡◌, ◌⊎◌, false, none, some, length}
use rive_cpp_legacy.Core.Reader.{Reader, read_bytes, reached_end, has_error}

-- The announced span was handed out and the position is `position` now, without an error.
abbrev pub HandsOut : Reader → Reader → ℕ → Reader → Type 0
HandsOut r s size t =
    (read_bytes r ≡ some (record { start = s.position; size = size }, t))
    × (t.bytes ≡ s.bytes)
    × (has_error t ≡ false)

-- The three ends: behind the span, which may be past the end of the buffer, in front of the
-- buffer, or back again.
abbrev pub Span : Reader → Reader → ℕ → Type 0
Span r s size =
    ((t : Reader) × HandsOut r s size t
      × (t.position ≡ s.position + size)
      × ((t.position ≤ length t.bytes) ⊎ (reached_end t ≡ false)))
    ⊎ (((2 ^ 63 ≤ s.position + size) × (s.position + size < 2 ^ 64) × (read_bytes r ≡ none))
        ⊎ ((t : Reader) × HandsOut r s size t
            × (t.position + 2 ^ 64 ≡ s.position + size)
            × (t.position < s.position)))
