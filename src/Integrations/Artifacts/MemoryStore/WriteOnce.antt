-- ===== src/Integrations/Artifacts/MemoryStore/WriteOnce.antt =====
-- What the artifact store of integrations/artifact/memory_store.py keeps.
use cobalt_wren.Prelude.{
  ℕ, Bool, true, false, ◌&&◌, Option, none, some, List, if◌then◌else◌, ◌≡◌, refl, sym, ap, ◌∙◌, ◌⊎◌,
  arith, Bool-cases, inl, inr,
}
use cobalt_wren.Prelude.Dict.{get, put, get-put}
use cobalt_wren.Prelude.Equality.{◌==◌, nat_eq, list_eq, list_beq_iff}
use cobalt_wren.Prelude.Result.{ok, err, guard, on_ok, ok-injective}
use cobalt_wren.Prelude.Text.{Text, codes, startswith}
use cobalt_wren.Core.Redaction.{Patterns}
use cobalt_wren.Core.Value.{str, dict}
use cobalt_wren.Checkpoint.Types.{run_id_eq}
use cobalt_wren.Integrations.ArtifactKeys.{KeyError, validate_storage_key, is_safe_storage_key}
use cobalt_wren.Integrations.Artifacts.{
  Checked, conflict, invalid_storage_key, invalid_name, invalid_kind, invalid_digest,
  normalize_storage_key, normalize_run_id, normalize_metadata, normalize_content_type,
  optional_text, run_id_value, content_type_value, stored_artifact, same_artifact,
  ArtifactWriteRequest, StoredArtifact,
}
use cobalt_wren.Integrations.Artifacts.MemoryStore.{
  ArtifactRecord, Items, put_candidate, prepared, put_prepared, put_artifact,
}

-- A key is stored as it was given.
pub same_key : (given key : Text) → normalize_storage_key given ≡ ok key → given ≡ key
unfolding normalize_storage_key validate_storage_key
same_key given key h = by_safety (is_safe_storage_key given) h
  where
    by_safety :
        (b : Bool)
        → (elim (if b then ok given else err KeyError.unsafe_artifact_storage_key)
            as (λ r. Checked Text) [ ok k ↦ ok k | err e ↦ err invalid_storage_key ])
          ≡ ok key
        → given ≡ key
    by_safety true e = cc
    by_safety false e = absurd (ground (arith, e))

pub second_of : (a b c : Bool) → (a && (b && c)) ≡ true → b ≡ true
second_of true true c h = refl
second_of true false c h = h
second_of false b c h = absurd (ground (arith, h))

module _ (p : Patterns) (max_depth : ℕ) where
  -- A descriptor keeps its key, its size and its digest, and its key is valid.
  pub stored_artifact_keeps :
      (a b : StoredArtifact)
      → stored_artifact p max_depth a ≡ ok b
      → (a.storage_key ≡ b.storage_key)
        × (a.size ≡ b.size)
        × (a.digest ≡ b.digest)
        × (normalize_storage_key a.storage_key ≡ ok a.storage_key)
  unfolding stored_artifact
  stored_artifact_keeps a b h = on_ok (normalize_run_id (run_id_value a.run_id)) _ h λ r e1 h1.
      on_ok (normalize_storage_key a.storage_key) _ h1 λ k e2 h2.
        on_ok (optional_text invalid_name (str a.name)) _ h2 λ n e3 h3.
          on_ok (optional_text invalid_kind (str a.kind)) _ h3 λ d e4 h4.
            on_ok (normalize_content_type (content_type_value a.content_type)) _ h4 λ c e5 h5.
              on_ok (guard (startswith a.digest (codes "sha256:")) invalid_digest) _ h5 λ u e6 h6.
                on_ok (normalize_metadata p max_depth (dict a.metadata)) _ h6 λ m e7 h7. (
                  same_key a.storage_key k e2 ∙ ap (λ x. x.storage_key) (ok-injective h7),
                  ap (λ x. x.size) (ok-injective h7),
                  ap (λ x. x.digest) (ok-injective h7),
                  e2 ∙ ap ok (sym (same_key a.storage_key k e2)),
                )

  module _ (hexdigest : List ℕ → Text) where
    put_candidate_keeps :
        (request : ArtifactWriteRequest) (candidate : StoredArtifact) (items : Items) (key : Text)
        (kept : ArtifactRecord)
        → get items key ≡ some kept
        → get
            (put_candidate p max_depth hexdigest request candidate
              (get items candidate.storage_key)
              items).1
            key
          ≡ some kept
    unfolding put_candidate
    put_candidate_keeps request candidate items key kept h =
        by_existing (get items candidate.storage_key) refl
      where
        by_clone :
            (o : Checked StoredArtifact)
            → get items candidate.storage_key ≡ none
            → get
                (elim o as (λ r. Checked StoredArtifact × Items) [
                  | err e ↦ (err e, items)
                  | ok clone ↦ (
                    ok clone,
                    put items candidate.storage_key
                        (record { artifact = clone; body = request.body }),
                  )
                ]).1
                key
              ≡ some kept
        by_clone (err e) absent = h
        by_clone (ok clone) absent =
            rw
              (get-put items candidate.storage_key key
                (record { artifact = clone; body = request.body }))
              (other_key (Bool-cases (candidate.storage_key == key)))
          where
            other_key :
                ((candidate.storage_key == key) ≡ true) ⊎ ((candidate.storage_key == key) ≡ false)
                → (if candidate.storage_key == key
                    then some (record { artifact = clone; body = request.body })
                    else get items key)
                  ≡ some kept
            other_key (inl same) = absurd (
                both_ways (
                  sym absent
                  ∙ (ap (get items) ((list_beq_iff candidate.storage_key key).0 same) ∙ h)))
              where
                both_ways : ◌≡◌ {A = Option ArtifactRecord} none (some kept) → ⊥
                both_ways e = cc
            other_key (inr differs) = rw differs h

        by_existing :
            (o : Option ArtifactRecord)
            → get items candidate.storage_key ≡ o
            → get (put_candidate p max_depth hexdigest request candidate o items).1 key ≡ some kept
        by_existing (some existing) e =
            by_equality
              (same_artifact existing.artifact candidate && (existing.body == request.body))
          where
            by_equality :
                (b : Bool)
                → get
                    (if◌then◌else◌ {A = Checked StoredArtifact × Items} b
                      (stored_artifact p max_depth existing.artifact, items)
                      (err conflict, items)).1
                    key
                  ≡ some kept
            by_equality true = h
            by_equality false = h
        by_existing none e = by_clone (stored_artifact p max_depth candidate) e

    -- A written artifact is never replaced: whatever a write's request and outcome are, what the
    -- store holds under a key stays.
    pub put_artifact_keeps :
        (request : ArtifactWriteRequest) (items : Items) (key : Text) (kept : ArtifactRecord)
        → get items key ≡ some kept
        → get (put_artifact p max_depth hexdigest request items).1 key ≡ some kept
    unfolding put_artifact
    put_artifact_keeps request items key kept h =
        by_prepared (prepared p max_depth hexdigest request)
      where
        by_prepared :
            (r : Checked (ArtifactWriteRequest × StoredArtifact))
            → get (put_prepared p max_depth hexdigest r items).1 key ≡ some kept
        by_prepared (err e) = h
        by_prepared (ok (renewed, candidate)) =
            put_candidate_keeps renewed candidate items key kept h
