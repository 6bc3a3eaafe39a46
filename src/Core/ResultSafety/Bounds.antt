-- ===== src/Core/ResultSafety/Bounds.antt =====
-- Bounds on what core/result_safety.py lets into a row.
use cobalt_wren.Prelude.{
  ◌+◌, ◌≤◌, Bool, true, false, [], ◌∷◌, ◌++◌, if◌then◌else◌, length, length-append, ◌≡◌, refl,
  arith,
}
use mathlib.Core.List.{reverse, reverse-cons}
use cobalt_wren.Prelude.Equality.{◌==◌, nat_eq, list_eq}
use cobalt_wren.Prelude.Text.{Text, codes, strip, lstrip}
use cobalt_wren.Core.Redaction.{Patterns, redact_text, redacted_value}
use cobalt_wren.Core.Summary.{truncate_text, truncate_text-bound}
use cobalt_wren.Core.ResultSafety.{safe_run_error_message, normalize_error_text}

length-lstrip : (s : Text) → length (lstrip s) ≤ length s
unfolding lstrip
length-lstrip [] = omega arith
length-lstrip (c ∷ s) = ground (arith, length-lstrip s)

length-reverse : (s : Text) → length (reverse s) ≡ length s
length-reverse [] = refl
length-reverse (c ∷ s) =
    rw (reverse-cons c s) (omega (arith, length-append (reverse s) (c ∷ []), length-reverse s))

length-strip : (s : Text) → length (strip s) ≤ length s
unfolding strip
length-strip s = omega (
  arith,
  length-reverse (lstrip (reverse (lstrip s))),
  length-lstrip (reverse (lstrip s)),
  length-reverse (lstrip s),
  length-lstrip s,
)

within : (t : Text) → length t ≤ 300 → length (strip t) ≤ 300
within t h = omega (arith, length-strip t, h)

length-choice :
    (b : Bool) (t : Text) → length t ≤ 300 → length (if b then redacted_value else t) ≤ 300
length-choice true t h = omega arith
length-choice false t h = h

-- The message of an error that is stored is at most 302 characters longer than the name of its type.
pub safe_run_error_message-bound :
    (p : Patterns) (error_type message : Text)
    → length (safe_run_error_message p error_type message) ≤ length error_type + 302
unfolding safe_run_error_message
safe_run_error_message-bound p error_type message =
    by_text (normalize_error_text (if message == [] then codes "operation failed" else message))
  where
    by_text :
        (raw : Text)
        → length (
            error_type
            ++ codes ": "
            ++ (if strip (truncate_text (redact_text p raw) 300) == []
                then redacted_value
                else strip (truncate_text (redact_text p raw) 300)))
          ≤ length error_type + 302
    by_text raw =
        let t = truncate_text (redact_text p raw) 300 in
        let shown = if strip t == [] then redacted_value else strip t in
        omega (
          arith,
          length-append (error_type ++ codes ": ") shown,
          length-append error_type (codes ": "),
          length-choice (strip t == []) (strip t)
              (within t (truncate_text-bound (redact_text p raw) 300)),
        )
