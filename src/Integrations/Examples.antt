-- ===== src/Integrations/Examples.antt =====
-- The artifact store of integrations/artifact/memory_store.py at concrete requests.
use cobalt_wren.Prelude.{ℕ, none, some, List, [], ◌∷◌, ◌++◌, length, ◌≡◌, refl}
use cobalt_wren.Prelude.Dict.{get, put}
use cobalt_wren.Prelude.Equality.{nat_eq, list_eq}
use cobalt_wren.Prelude.Int.{pos}
use cobalt_wren.Prelude.Result.{ok}
use cobalt_wren.Prelude.Text.{Text, codes, strip, lstrip}
use cobalt_wren.Core.Redaction.{Patterns, redact_mapping, redact_value}
use cobalt_wren.Core.Value.{end}
use cobalt_wren.Checkpoint.Normalize.{number}
use cobalt_wren.Integrations.ArtifactKeys.{validate_storage_key, is_safe_storage_key}
use cobalt_wren.Prelude.Text.{decimal, decimal_from}
use cobalt_wren.Integrations.Emission.{
  ArtifactIdentity, artifact_identity, build_artifact_storage_key, joined_key, quote,
  normalize_label, is_logical_identifier, normalize_emission_run_id,
}
use cobalt_wren.Integrations.Emission.Keys.{build_artifact_storage_key-injective}
use cobalt_wren.Integrations.Artifacts.{
  ArtifactWriteRequest, StoredArtifact, normalize_run_id, normalize_storage_key,
  normalize_content_type, normalize_metadata, normalize_json, stored_artifact,
}
use cobalt_wren.Integrations.Artifacts.MemoryStore.{
  ArtifactRecord, build_descriptor, put_candidate, prepared, put_artifact, get_artifact,
}
use cobalt_wren.Integrations.Artifacts.MemoryStore.WriteOnce.{put_artifact_keeps}
use cobalt_wren.Integrations.Artifacts.MemoryStore.ReadBack.{Reads, put_artifact-get_artifact}

-- Patterns that match nothing.
abbrev no_pattern : Patterns
no_pattern = record {
  bearer_sub = λ replacement text. text;
  unix_path_sub = λ replacement text. text;
  windows_path_sub = λ replacement text. text;
  home_path_sub = λ replacement text. text;
  unc_path_sub = λ replacement text. text;
  key_value_sub = λ replacement text. text;
}

-- A stand-in for a digest of the length of a body.
abbrev tally_digest : List ℕ → Text
tally_digest body = length body ∷ []

abbrev report : ArtifactWriteRequest
report = record {
  run_id = number (pos 4);
  storage_key = codes "runs/4/a";
  body = 1 ∷ 2 ∷ [];
  name = codes "a";
  kind = [];
  content_type = none;
  metadata = end;
}

abbrev other_report : ArtifactWriteRequest
other_report = record report { body = 3 ∷ [] }

abbrev stored_report : StoredArtifact
stored_report = record {
  run_id = number (pos 4);
  storage_key = codes "runs/4/a";
  name = codes "a";
  kind = [];
  content_type = none;
  size = 2;
  digest = codes "sha256:" ++ tally_digest (1 ∷ 2 ∷ []);
  metadata = end;
}

abbrev kept_report : ArtifactRecord
kept_report = record { artifact = stored_report; body = 1 ∷ 2 ∷ [] }

report_written : (put_artifact no_pattern 4 tally_digest report []).0 ≡ ok stored_report
unfolding put_artifact put_candidate prepared build_descriptor stored_artifact normalize_run_id
    normalize_storage_key validate_storage_key is_safe_storage_key normalize_content_type
    normalize_metadata normalize_json redact_mapping redact_value strip lstrip put
report_written = refl

put_artifact-get_artifact_example : Reads no_pattern 4 tally_digest report.body (
    get_artifact no_pattern 4 tally_digest stored_report.storage_key
      (put_artifact no_pattern 4 tally_digest report []).1)
put_artifact-get_artifact_example =
    put_artifact-get_artifact no_pattern 4 tally_digest report [] stored_report report_written

put_artifact_keeps_example :
    get
      (put_artifact no_pattern 4 tally_digest other_report ((codes "runs/4/a", kept_report) ∷ [])).1
      (codes "runs/4/a")
    ≡ some kept_report
put_artifact_keeps_example =
    put_artifact_keeps no_pattern 4 tally_digest other_report ((codes "runs/4/a", kept_report) ∷ [])
      (codes "runs/4/a") kept_report refl

abbrev second_report : ArtifactIdentity
second_report = record { run_id = 42; slot = codes "report"; occurrence = some (codes "b-2") }

second_report_key :
    build_artifact_storage_key second_report ≡ ok (codes "artifact/v1/42/report/b-2")
unfolding build_artifact_storage_key artifact_identity joined_key quote normalize_label
    is_logical_identifier normalize_emission_run_id validate_storage_key is_safe_storage_key strip
    lstrip decimal decimal_from
second_report_key = refl

build_artifact_storage_key-injective_example : second_report ≡ second_report
build_artifact_storage_key-injective_example =
    build_artifact_storage_key-injective second_report second_report
      (codes "artifact/v1/42/report/b-2") second_report_key second_report_key
