-- ===== src/Integrations/Artifacts/MemoryStore.antt =====
-- integrations/artifact/memory_store.py: `MemoryArtifactStore`. The digest function of the bodies
-- is a parameter.
pub mod WriteOnce
pub mod ReadBack
use cobalt_wren.Prelude.{
  ℕ, Bool, true, false, not, ◌&&◌, ◌||◌, Option, none, some, List, [], ◌∷◌, ◌++◌, if◌then◌else◌,
  length, ltb,
}
use cobalt_wren.Prelude.Dict.{Dict, get, put, values}
use cobalt_wren.Prelude.Equality.{◌==◌, nat_eq, list_eq}
use cobalt_wren.Prelude.Result.{Result, ok, err, ◌>>=◌}
use cobalt_wren.Prelude.Text.{Text, codes}
use cobalt_wren.Core.Redaction.{Patterns}
use cobalt_wren.Core.Value.{Value, bytes, str, dict}
use cobalt_wren.Checkpoint.Normalize.{RunId}
use cobalt_wren.Checkpoint.Types.{run_id_eq}
use cobalt_wren.Integrations.Artifacts.{
  Checked, ArtifactError, integrity_failure, conflict, normalize_storage_key, normalize_run_id,
  run_id_value, content_type_value, write_request, stored_artifact, same_artifact,
  ArtifactWriteRequest, StoredArtifact, ArtifactReadResult,
}

-- `_StoredArtifactRecord`
pub record ArtifactRecord : Type 0 where
  pub artifact : StoredArtifact
  pub body : List ℕ

-- `_items`, by storage key.
abbrev pub Items : Type 0
Items = Dict Text ArtifactRecord

-- Python's order on texts: by their first difference.
abbrev pub text_lt : Text → Text → Bool
text_lt s [] = false
text_lt [] (d ∷ t) = true
text_lt (c ∷ s) (d ∷ t) = ltb c d || ((c == d) && text_lt s t)

-- `sort(key=...)`, which is stable.
unfoldable pub insert_by_key : StoredArtifact → List StoredArtifact → List StoredArtifact
insert_by_key a [] = a ∷ []
insert_by_key a (b ∷ bs) =
    let rest = insert_by_key a bs in
    if text_lt b.storage_key a.storage_key then b ∷ rest else a ∷ b ∷ bs

unfoldable pub sort_by_key : List StoredArtifact → List StoredArtifact
unfolding insert_by_key
sort_by_key [] = []
sort_by_key (a ∷ bs) = insert_by_key a (sort_by_key bs)

module _ (p : Patterns) (max_depth : ℕ) (hexdigest : List ℕ → Text) where
  abbrev pub digest_body : List ℕ → Text
  digest_body body = codes "sha256:" ++ hexdigest body

  -- `_build_descriptor`
  unfoldable pub build_descriptor : ArtifactWriteRequest → Checked StoredArtifact
  build_descriptor request = stored_artifact p max_depth (record {
    run_id = request.run_id;
    storage_key = request.storage_key;
    name = request.name;
    kind = request.kind;
    content_type = request.content_type;
    size = length request.body;
    digest = digest_body request.body;
    metadata = request.metadata;
  })

  -- The request under the validated key; it is made again if the key changed.
  abbrev pub under_key : Text → ArtifactWriteRequest → Checked ArtifactWriteRequest
  under_key validated request =
      if validated == request.storage_key
      then ok request
      else write_request p max_depth (record {
        run_id = run_id_value request.run_id;
        storage_key = validated;
        body = bytes request.body;
        name = str request.name;
        kind = str request.kind;
        content_type = content_type_value request.content_type;
        metadata = dict request.metadata;
      })

  -- `put`, where the key is looked up.
  unfoldable pub put_candidate :
      ArtifactWriteRequest
      → StoredArtifact
      → Option ArtifactRecord
      → Items
      → Checked StoredArtifact × Items
  put_candidate request candidate (some existing) items =
      if same_artifact existing.artifact candidate && (existing.body == request.body)
      then (stored_artifact p max_depth existing.artifact, items)
      else (err conflict, items)
  put_candidate request candidate none items = elim (stored_artifact p max_depth candidate) [
    | err e ↦ (err e, items)
    | ok clone ↦ (
      ok clone,
      put items candidate.storage_key (record { artifact = clone; body = request.body }),
    )
  ]

  unfoldable pub prepared : ArtifactWriteRequest → Checked (ArtifactWriteRequest × StoredArtifact)
  unfolding build_descriptor
  prepared request = normalize_storage_key request.storage_key >>= λ validated.
      (under_key validated request >>= λ renewed.
      (build_descriptor renewed >>= λ candidate. ok (renewed, candidate)))

  abbrev pub put_prepared :
      Checked (ArtifactWriteRequest × StoredArtifact) → Items → Checked StoredArtifact × Items
  put_prepared (err e) items = (err e, items)
  put_prepared (ok (request, candidate)) items =
      put_candidate request candidate (get items candidate.storage_key) items

  -- `put`
  unfoldable pub put_artifact : ArtifactWriteRequest → Items → Checked StoredArtifact × Items
  unfolding put_candidate prepared
  put_artifact request items = put_prepared (prepared request) items

  abbrev pub read_record : Option ArtifactRecord → Checked (Option ArtifactReadResult)
  read_record none = ok none
  read_record (some found) =
      if not (found.artifact.size == length found.body)
        || not (found.artifact.digest == digest_body found.body)
      then err integrity_failure
      else (stored_artifact p max_depth found.artifact >>= λ clone.
          ok (some (record { artifact = clone; body = found.body })))

  -- `get`
  unfoldable pub get_artifact : Text → Items → Checked (Option ArtifactReadResult)
  get_artifact storage_key items =
      normalize_storage_key storage_key >>= λ key. read_record (get items key)

  unfoldable pub clones_for_run : RunId → List ArtifactRecord → Checked (List StoredArtifact)
  clones_for_run run_id [] = ok []
  clones_for_run run_id (found ∷ records) =
      if found.artifact.run_id == run_id
      then (stored_artifact p max_depth found.artifact >>= λ clone.
          (clones_for_run run_id records >>= λ clones. ok (clone ∷ clones)))
      else clones_for_run run_id records

  -- `list_for_run`
  unfoldable pub list_for_run : Value → Items → Checked (List StoredArtifact)
  unfolding clones_for_run sort_by_key
  list_for_run run_id items = normalize_run_id run_id >>= λ normalized.
      (clones_for_run normalized (values items) >>= λ clones. ok (sort_by_key clones))
