-- ===== src/Integrations/Artifacts/MemoryStore/ReadBack.antt =====
-- What a read of the artifact store of integrations/artifact/memory_store.py finds after a write.
use cobalt_wren.Prelude.{
  ℕ, Bool, true, false, ◌&&◌, Option, none, some, List, ◌++◌, if◌then◌else◌, length, ◌≡◌, refl, sym,
  ap, ◌∙◌, subst, arith,
}
use cobalt_wren.Prelude.Dict.{get, put, get-put_self}
use cobalt_wren.Prelude.Equality.{◌==◌, nat_eq, list_eq, list_beq_iff}
use cobalt_wren.Prelude.Result.{ok, err, on_ok, ok-injective}
use cobalt_wren.Prelude.Text.{Text, codes}
use cobalt_wren.Core.Redaction.{Patterns}
use cobalt_wren.Checkpoint.Types.{run_id_eq}
use cobalt_wren.Integrations.Artifacts.{
  Checked, conflict, normalize_storage_key, stored_artifact, same_artifact, same_content_type,
  ArtifactWriteRequest, StoredArtifact, ArtifactReadResult,
}
use cobalt_wren.Integrations.Artifacts.Renewed.{stored_artifact_again}
use cobalt_wren.Integrations.Artifacts.MemoryStore.{
  ArtifactRecord, Items, build_descriptor, put_candidate, prepared, put_prepared, put_artifact,
  read_record, get_artifact, under_key, digest_body,
}
use cobalt_wren.Integrations.Artifacts.MemoryStore.WriteOnce.{same_key, stored_artifact_keeps}

right_of : (a b : Bool) → (a && b) ≡ true → b ≡ true
right_of true b h = h
right_of false b h = absurd (ground (arith, h))

left_of : (a b : Bool) → (a && b) ≡ true → a ≡ true
left_of true b h = refl
left_of false b h = h

-- Equal descriptors have one size and one digest.
same_artifact-agree :
    (a b : StoredArtifact)
    → same_artifact a b ≡ true
    → (a.storage_key ≡ b.storage_key) × (a.size ≡ b.size) × (a.digest ≡ b.digest)
unfolding same_artifact
same_artifact-agree a b h =
    let from_key = right_of (a.run_id == b.run_id) _ h in
    let from_name = right_of (a.storage_key == b.storage_key) _ from_key in
    let from_kind = right_of (a.name == b.name) _ from_name in
    let from_type = right_of (a.kind == b.kind) _ from_kind in
    let from_size = right_of (same_content_type a.content_type b.content_type) _ from_type in
    let from_digest = right_of (a.size == b.size) _ from_size in
    (
      (list_beq_iff a.storage_key b.storage_key).0 (left_of _ _ from_key),
      (nat_eq.beq_iff a.size b.size).0 (left_of _ _ from_size),
      (list_beq_iff a.digest b.digest).0 (left_of _ _ from_digest),
    )

module _ (p : Patterns) (max_depth : ℕ) (hexdigest : List ℕ → Text) where
  -- A record of this body that a read accepts.
  abbrev IsIntact : List ℕ → ArtifactRecord → Type 0
  IsIntact body found =
      (found.body ≡ body)
      × (found.artifact.size ≡ length body)
      × (found.artifact.digest ≡ digest_body p max_depth hexdigest body)
      × ((clone : StoredArtifact) × (stored_artifact p max_depth found.artifact ≡ ok clone))

  -- What is under a descriptor's key, which is valid, after a write that gave the descriptor.
  abbrev Holds : StoredArtifact → List ℕ → Items → Type 0
  Holds a body items =
      (found : ArtifactRecord) × (get items a.storage_key ≡ some found)
      × (normalize_storage_key a.storage_key ≡ ok a.storage_key)
      × (IsIntact body found)

  valid_key :
      (a b : StoredArtifact)
      → stored_artifact p max_depth a ≡ ok b
      → normalize_storage_key b.storage_key ≡ ok b.storage_key
  valid_key a b made =
      let (c, again) = stored_artifact_again p max_depth a b made in
      (stored_artifact_keeps p max_depth b c again).3

  put_candidate-Holds :
      (request : ArtifactWriteRequest) (candidate a : StoredArtifact) (items : Items)
      → candidate.size ≡ length request.body
      → candidate.digest ≡ digest_body p max_depth hexdigest request.body
      → (put_candidate p max_depth hexdigest request candidate
          (get items candidate.storage_key)
          items).0
        ≡ ok a
      → Holds a request.body
          (put_candidate p max_depth hexdigest request candidate
            (get items candidate.storage_key)
            items).1
  unfolding put_candidate
  put_candidate-Holds request candidate a items sized digested h =
      by_existing (get items candidate.storage_key) refl h
    where
      record_of : StoredArtifact → ArtifactRecord
      record_of clone = record { artifact = clone; body = request.body }

      by_clone :
          (o : Checked StoredArtifact)
          → stored_artifact p max_depth candidate ≡ o
          → (elim o as (λ r. Checked StoredArtifact × Items) [
            | err e ↦ (err e, items)
            | ok clone ↦ (
              ok clone,
              put items candidate.storage_key (record { artifact = clone; body = request.body }),
            )
          ]).0
            ≡ ok a
          → Holds a request.body
              (elim o as (λ r. Checked StoredArtifact × Items) [
                | err e ↦ (err e, items)
                | ok clone ↦ (
                  ok clone,
                  put items candidate.storage_key
                      (record { artifact = clone; body = request.body }),
                )
              ]).1
      by_clone (err e) made k = absurd (ground (arith, k))
      by_clone (ok clone) made k =
          let kept = stored_artifact_keeps p max_depth candidate clone made in
          (
            record_of clone,
            subst
                (λ key.
                  get (put items candidate.storage_key (record_of clone)) key
                  ≡ some (record_of clone))
                (kept.0 ∙ ap (λ x. x.storage_key) (ok-injective k))
                (get-put_self items candidate.storage_key (record_of clone)),
            subst (λ x. normalize_storage_key x.storage_key ≡ ok x.storage_key) (ok-injective k)
                (valid_key candidate clone made),
            (
              refl,
              sym kept.1 ∙ sized,
              sym kept.2 ∙ digested,
              stored_artifact_again p max_depth candidate clone made,
            ),
          )

      by_existing :
          (o : Option ArtifactRecord)
          → get items candidate.storage_key ≡ o
          → (put_candidate p max_depth hexdigest request candidate o items).0 ≡ ok a
          → Holds a request.body (put_candidate p max_depth hexdigest request candidate o items).1
      by_existing (some existing) e k =
          by_equality (same_artifact existing.artifact candidate) (existing.body == request.body)
            refl refl k
        where
          by_equality :
              (b c : Bool)
              → same_artifact existing.artifact candidate ≡ b
              → (existing.body == request.body) ≡ c
              → (if◌then◌else◌ {A = Checked StoredArtifact × Items}
                  (b && c)
                  (stored_artifact p max_depth existing.artifact, items)
                  (err conflict, items)).0
                ≡ ok a
              → Holds a request.body
                  (if◌then◌else◌ {A = Checked StoredArtifact × Items}
                    (b && c)
                    (stored_artifact p max_depth existing.artifact, items)
                    (err conflict, items)).1
          by_equality true true same equal made =
              let (key, size, digest) = same_artifact-agree existing.artifact candidate same in
              (
                existing,
                subst (λ key. get items key ≡ some existing)
                    (sym key ∙ (stored_artifact_keeps p max_depth existing.artifact a made).0) e,
                valid_key existing.artifact a made,
                (
                  (list_beq_iff existing.body request.body).0 equal,
                  size ∙ sized,
                  digest ∙ digested,
                  (a, made),
                ),
              )
          by_equality true false same equal made = absurd (ground (arith, made))
          by_equality false c same equal made = absurd (ground (arith, made))
      by_existing none e k = by_clone (stored_artifact p max_depth candidate) refl k

  -- The key that is validated is the key of the request, so the request stays.
  prepared_request :
      (request renewed : ArtifactWriteRequest) (candidate : StoredArtifact)
      → prepared p max_depth hexdigest request ≡ ok (renewed, candidate)
      → (request ≡ renewed)
        × (candidate.size ≡ length renewed.body)
        × (candidate.digest ≡ digest_body p max_depth hexdigest renewed.body)
  unfolding prepared build_descriptor
  prepared_request request renewed candidate h =
      on_ok (normalize_storage_key request.storage_key) _ h λ validated e1 h1.
        on_ok (under_key p max_depth hexdigest validated request) _ h1 λ made e2 h2.
          on_ok (build_descriptor p max_depth hexdigest made) _ h2 λ built e3 h3. (
            by_key validated made
                  ((list_beq_iff validated request.storage_key).1
                    (sym (same_key request.storage_key validated e1)))
                  e2
                ∙ ap (λ pair. pair.0) (ok-injective h3),
            subst (λ pair. pair.1.size ≡ length pair.0.body) (ok-injective h3)
                (sym (stored_artifact_keeps p max_depth _ built e3).1),
            subst (λ pair. pair.1.digest ≡ digest_body p max_depth hexdigest pair.0.body)
                (ok-injective h3) (sym (stored_artifact_keeps p max_depth _ built e3).2),
          )
    where
      by_key :
          (validated : Text) (made : ArtifactWriteRequest)
          → (validated == request.storage_key) ≡ true
          → under_key p max_depth hexdigest validated request ≡ ok made
          → request ≡ made
      by_key validated made same e = ok-injective (rw same at e)

  put_artifact-Holds :
      (request : ArtifactWriteRequest) (items : Items) (a : StoredArtifact)
      → (put_artifact p max_depth hexdigest request items).0 ≡ ok a
      → Holds a request.body (put_artifact p max_depth hexdigest request items).1
  unfolding put_artifact
  put_artifact-Holds request items a written =
      by_prepared (prepared p max_depth hexdigest request) refl written
    where
      by_prepared :
          (r : Checked (ArtifactWriteRequest × StoredArtifact))
          → prepared p max_depth hexdigest request ≡ r
          → (put_prepared p max_depth hexdigest r items).0 ≡ ok a
          → Holds a request.body (put_prepared p max_depth hexdigest r items).1
      by_prepared (err e) made w = absurd (ground (arith, w))
      by_prepared (ok (renewed, candidate)) made w =
          let (same, sized, digested) = prepared_request request renewed candidate made in
          subst
            (λ q.
              Holds a q.body (put_prepared p max_depth hexdigest (ok (renewed, candidate)) items).1)
            (sym same) (put_candidate-Holds renewed candidate a items sized digested w)

  -- A read gave the body, with a descriptor of its size and digest.
  abbrev pub Reads : List ℕ → Checked (Option ArtifactReadResult) → Type 0
  Reads body read =
      (result : ArtifactReadResult) × (read ≡ ok (some result))
      × (result.body ≡ body)
      × (result.artifact.size ≡ length body)
      × (result.artifact.digest ≡ codes "sha256:" ++ hexdigest body)

  read_record-Reads :
      (found : ArtifactRecord) (body : List ℕ)
      → IsIntact body found
      → Reads body (read_record p max_depth hexdigest (some found))
  read_record-Reads found body (same, size, digest, (clone, made)) =
      let kept = stored_artifact_keeps p max_depth found.artifact clone made in
      (
        record { artifact = clone; body = found.body },
        accepted
            ((nat_eq.beq_iff found.artifact.size (length found.body)).1
              (size ∙ ap length (sym same)))
            ((list_beq_iff found.artifact.digest (digest_body p max_depth hexdigest found.body)).1
              (digest ∙ ap (digest_body p max_depth hexdigest) (sym same))),
        same,
        sym kept.1 ∙ size,
        sym kept.2 ∙ digest,
      )
    where
      accepted :
          (found.artifact.size == length found.body) ≡ true
          → (found.artifact.digest == digest_body p max_depth hexdigest found.body) ≡ true
          → read_record p max_depth hexdigest (some found)
            ≡ ok (some (record { artifact = clone; body = found.body }))
      accepted sized digested = rw sized (rw digested (rw made refl))

  -- A write that succeeded can be read back: a read under the key of the descriptor that it returned
  -- succeeds and finds an artifact, with the body of the request and a descriptor of the size and the
  -- SHA-256 digest of that body.
  pub put_artifact-get_artifact :
      (request : ArtifactWriteRequest) (items : Items) (a : StoredArtifact)
      → (put_artifact p max_depth hexdigest request items).0 ≡ ok a
      → Reads request.body (
          get_artifact p max_depth hexdigest a.storage_key
            (put_artifact p max_depth hexdigest request items).1)
  unfolding get_artifact
  put_artifact-get_artifact request items a written =
      let (found, under, valid, intact) = put_artifact-Holds request items a written in
      rw valid (
        subst (λ o. Reads request.body (read_record p max_depth hexdigest o)) (sym under)
          (read_record-Reads found request.body intact))
