-- ===== src/Core/Examples.antt =====
-- The theorems on redaction and truncation at concrete payloads.
use cobalt_wren.Prelude.Text.{codes}
use cobalt_wren.Core.Value.{str, dict, end, field, name, Fields}
use cobalt_wren.Core.Redaction.{Patterns, redact_mapping}
use cobalt_wren.Core.Redaction.Safety.{FieldsRedacted, redact_mapping-FieldsRedacted}

-- Patterns that match nothing.
abbrev no_match : Patterns
no_match = record {
  bearer_sub = λ replacement text. text;
  unix_path_sub = λ replacement text. text;
  windows_path_sub = λ replacement text. text;
  home_path_sub = λ replacement text. text;
  unc_path_sub = λ replacement text. text;
  key_value_sub = λ replacement text. text;
}

abbrev nested_payload : Fields
nested_payload =
    field (name (codes "user")) (dict (field (name (codes "API_KEY")) (str (codes "abc")) end))
      (field (name (codes "note")) (str (codes "hello")) end)

redact_mapping-FieldsRedacted_example :
    FieldsRedacted no_match (redact_mapping no_match 4 nested_payload)
redact_mapping-FieldsRedacted_example = redact_mapping-FieldsRedacted no_match 4 nested_payload
