-- ===== src/Logger/Buffer.antt =====
-- internal/logger/logger.go: what the buffer of log lines holds.
use daemon_go.Prelude.{
  ℕ, ◌≡◌, ap, sym, ◌∙◌, List, [], ◌∷◌, ◌++◌, append_assoc, append-nil, Text, ◌==◌, last,
  last-append-last, last_of_length-le, trim_space, if◌then◌else◌, Bool-cases, inl, inr, arith,
}
use daemon_go.Logger.{LogBuffer, new_log_buffer, write_all, recent_logs}

-- the lines that are kept of what is written: trimmed, and not blank
unfoldable pub shown_lines : List Text → List Text
unfolding trim_space
shown_lines [] = []
shown_lines (p ∷ ps) =
    let rest = shown_lines ps in if trim_space p == [] then rest else trim_space p ∷ rest

lines-write_all :
    (ps : List Text) (b : LogBuffer) (history : List Text)
    → b.lines ≡ last b.max_size history
    → (write_all ps b).lines ≡ last b.max_size (history ++ shown_lines ps)
unfolding write_all shown_lines
lines-write_all [] b history h = rw (append-nil history) h
lines-write_all (p ∷ ps) b history h = elim (Bool-cases (trim_space p == [])) [
  | inl blank ↦ rw (blank, write_all) (lines-write_all ps b history h)
  | inr shown ↦
      let line : Text = trim_space p in
      let b' : LogBuffer = record b { lines = last b.max_size (b.lines ++ line ∷ []) } in
      rw (shown, write_all, sym (append_assoc history (line ∷ []) (shown_lines ps)))
        (lines-write_all ps b' (history ++ line ∷ []) (
          ap (λ l. last b.max_size (l ++ line ∷ [])) h
          ∙ last-append-last b.max_size history (line ∷ [])))
]

-- After any writes a new buffer returns the latest of the written lines, trimmed and without the
-- blank ones, as many as its size allows.
pub recent_logs_window :
    (max_size : ℕ) (ps : List Text)
    → recent_logs (write_all ps (new_log_buffer max_size)) ≡ last max_size (shown_lines ps)
unfolding recent_logs new_log_buffer
recent_logs_window max_size ps =
    lines-write_all ps (record { lines = []; max_size = max_size }) []
      (sym (last_of_length-le max_size [] (omega arith)))
