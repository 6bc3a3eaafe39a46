-- ===== src/Integrations/Artifacts/Renewed.antt =====
-- A descriptor of integrations/artifact/base.py can be made again from itself.
use cobalt_wren.Prelude.{
  ℕ, Bool, true, false, ◌||◌, Option, none, some, [], ◌∷◌, if◌then◌else◌, ◌≡◌, refl, ap, ◌∙◌, subst,
  arith,
}
use cobalt_wren.Prelude.Equality.{◌==◌, nat_eq, list_eq}
use cobalt_wren.Prelude.Result.{ok, err, guard, on_ok, ok-injective}
use cobalt_wren.Prelude.Text.{Text, codes, strip, lower, startswith, has_char}
use cobalt_wren.Prelude.Text.Strip.{strip-strip, strip-lower, lower-lower}
use cobalt_wren.Core.Redaction.{Patterns}
use cobalt_wren.Core.Value.{str, dict}
use cobalt_wren.Checkpoint.Normalize.{RunId, number, label}
use cobalt_wren.Integrations.Artifacts.{
  ArtifactError, invalid_run_id, invalid_name, invalid_kind, invalid_content_type, invalid_digest,
  is_blank, normalize_run_id, run_id_value, normalize_storage_key, optional_text,
  normalize_content_type, content_type_value, normalize_metadata, stored_artifact, StoredArtifact,
}
use cobalt_wren.Integrations.Artifacts.Metadata.{metadata_again}
use cobalt_wren.Integrations.Artifacts.MemoryStore.WriteOnce.{same_key}

run_id_again :
    (a b : RunId)
    → normalize_run_id (run_id_value a) ≡ ok b
    → normalize_run_id (run_id_value b) ≡ ok b
unfolding normalize_run_id
run_id_again (number n) b h =
    subst (λ r. normalize_run_id (run_id_value r) ≡ ok r) (ok-injective h) refl
run_id_again (label s) b h = by_blank (is_blank s) refl h
  where
    by_blank :
        (blank : Bool)
        → is_blank s ≡ blank
        → (if blank then err invalid_run_id else ok (label (strip s))) ≡ ok b
        → normalize_run_id (run_id_value b) ≡ ok b
    by_blank true e k = absurd (ground (arith, k))
    by_blank false e k =
        subst (λ r. normalize_run_id (run_id_value r) ≡ ok r) (ok-injective k)
          (unfold normalize_run_id in rw (strip-strip s) (rw e refl))

text_again :
    (e : ArtifactError) (s t : Text)
    → optional_text e (str s) ≡ ok t
    → optional_text e (str t) ≡ ok t
text_again e [] t h = subst (λ x. optional_text e (str x) ≡ ok x) (ok-injective h) refl
text_again e (c ∷ cs) t h = by_blank (is_blank (c ∷ cs)) refl h
  where
    by_blank :
        (blank : Bool)
        → is_blank (c ∷ cs) ≡ blank
        → (if blank then err e else ok (strip (c ∷ cs))) ≡ ok t
        → optional_text e (str t) ≡ ok t
    by_blank true b k = absurd (ground (arith, k))
    by_blank false b k =
        subst (λ x. optional_text e (str x) ≡ ok x) (ok-injective k)
          (rw (strip-strip (c ∷ cs)) (rw b refl))

content_type_again :
    (a b : Option Text)
    → normalize_content_type (content_type_value a) ≡ ok b
    → normalize_content_type (content_type_value b) ≡ ok b
unfolding normalize_content_type
content_type_again none b h =
    subst (λ c. normalize_content_type (content_type_value c) ≡ ok c) (ok-injective h) refl
content_type_again (some s) b h =
    by_test (lower (strip s)) same
      ((lower (strip s) == []) || (has_char 13 (lower (strip s)) || has_char 10 (lower (strip s))))
      refl h
  where
    same : lower (strip (lower (strip s))) ≡ lower (strip s)
    same =
        ap lower (strip-lower (strip s))
        ∙ (lower-lower (strip (strip s)) ∙ ap lower (strip-strip s))

    by_test :
        (t : Text)
        → lower (strip t) ≡ t
        → (bad : Bool) → ((t == []) || (has_char 13 t || has_char 10 t)) ≡ bad
        → (if bad then err invalid_content_type else ok (some t)) ≡ ok b
        → normalize_content_type (content_type_value b) ≡ ok b
    by_test t fixed true e k = absurd (ground (arith, k))
    by_test t fixed false e k =
        subst (λ c. normalize_content_type (content_type_value c) ≡ ok c) (ok-injective k)
          (unfold normalize_content_type in rw fixed (rw e refl))

module _ (p : Patterns) (max_depth : ℕ) where
  -- A descriptor that was made can be made again.
  pub stored_artifact_again :
      (a b : StoredArtifact)
      → stored_artifact p max_depth a ≡ ok b
      → (c : StoredArtifact) × (stored_artifact p max_depth b ≡ ok c)
  unfolding stored_artifact
  stored_artifact_again a b h = on_ok (normalize_run_id (run_id_value a.run_id)) _ h λ r e1 h1.
      on_ok (normalize_storage_key a.storage_key) _ h1 λ k e2 h2.
        on_ok (optional_text invalid_name (str a.name)) _ h2 λ n e3 h3.
          on_ok (optional_text invalid_kind (str a.kind)) _ h3 λ d e4 h4.
            on_ok (normalize_content_type (content_type_value a.content_type)) _ h4 λ c e5 h5.
              on_ok (guard (startswith a.digest (codes "sha256:")) invalid_digest) _ h5 λ u e6 h6.
                on_ok (normalize_metadata p max_depth (dict a.metadata)) _ h6 λ m e7 h7.
                  let (again, e8) = metadata_again p max_depth a.metadata m e7 in
                  subst (λ x. (c : StoredArtifact) × (stored_artifact p max_depth x ≡ ok c))
                    (ok-injective h7)
                    (
                      record {
                        run_id = r;
                        storage_key = k;
                        name = n;
                        kind = d;
                        content_type = c;
                        size = a.size;
                        digest = a.digest;
                        metadata = again;
                      },
                      unfold stored_artifact in
                          rw (run_id_again a.run_id r e1) (
                            rw
                              (subst (λ q. normalize_storage_key q ≡ ok k)
                                (same_key a.storage_key k e2) e2)
                              (rw (text_again invalid_name a.name n e3) (
                                rw (text_again invalid_kind a.kind d e4) (
                                  rw (content_type_again a.content_type c e5)
                                    (rw e6 (rw e8 refl)))))),
                    )
