-- ===== src/Checkpoint/Types/Normal.antt =====
-- A request that its constructor made, and a descriptor that passes its own constructor unchanged.
use cobalt_wren.Prelude.{◌<◌, Bool, true, false, not, Option, none, some, ◌≡◌, lt→ltb, refl, subst}
use cobalt_wren.Prelude.Result.{ok, guard, on_ok, ok-injective}
use cobalt_wren.Prelude.Text.{Text}
use cobalt_wren.Core.Value.{Value, null, str, int, dict}
use cobalt_wren.Checkpoint.Normalize.{
  normalize_checkpoint_run_id, normalize_checkpoint_namespace, normalize_checkpoint_id,
  normalize_checkpoint_serializer_name, normalize_checkpoint_serializer_version,
  normalize_checkpoint_content_type, normalize_checkpoint_body, normalize_checkpoint_metadata,
}
use cobalt_wren.Checkpoint.Normalize.Stable.{
  run_id_value, normalize_run_id_stable, normalize_namespace_stable, normalize_id_stable,
  normalize_serializer_name_stable, normalize_serializer_version_stable,
  normalize_content_type_stable,
}
use cobalt_wren.Checkpoint.Normalize.Lossless.{normalize_metadata_stable}
use cobalt_wren.Checkpoint.Types.{
  WriteArguments, CheckpointWriteRequest, StoredCheckpoint, normalize_parent, parent_value,
  is_self_parent, is_digest, write_request, stored_checkpoint,
}

-- Every field of the request is what its normalizer gives back for it.
pub record IsRequest (r : CheckpointWriteRequest) : Type 0 where
  pub run_id : normalize_checkpoint_run_id (run_id_value r.run_id) ≡ ok r.run_id
  pub checkpoint_namespace :
      normalize_checkpoint_namespace (str r.checkpoint_namespace) ≡ ok r.checkpoint_namespace
  pub checkpoint_id : normalize_checkpoint_id (str r.checkpoint_id) ≡ ok r.checkpoint_id
  pub parent : normalize_parent (parent_value r.parent_checkpoint_id) ≡ ok r.parent_checkpoint_id
  pub serializer_name :
      normalize_checkpoint_serializer_name (str r.serializer_name) ≡ ok r.serializer_name
  pub serializer_version :
      normalize_checkpoint_serializer_version (int r.serializer_version) ≡ ok r.serializer_version
  pub content_type : normalize_checkpoint_content_type (str r.content_type) ≡ ok r.content_type
  pub metadata : normalize_checkpoint_metadata (dict r.metadata) ≡ ok r.metadata
  pub not_self_parent : is_self_parent r.parent_checkpoint_id r.checkpoint_id ≡ false

normalize_parent_stable :
    (v : Value) (p : Option Text)
    → normalize_parent v ≡ ok p
    → normalize_parent (parent_value p) ≡ ok p
unfolding normalize_parent
normalize_parent_stable null none h = refl
normalize_parent_stable null (some t) h = cc
normalize_parent_stable _ none h = refl
normalize_parent_stable v (some t) h =
    on_ok (normalize_checkpoint_id v) _ h λ u e k. rw (normalize_id_stable v t (cc (e, k)))

not_true : {E : Type 0} (b : Bool) (e : E) {u : Unit {0}} → guard (not b) e ≡ ok u → b ≡ false
not_true true e h = cc
not_true false e h = refl

-- Whatever the arguments, a request that the constructor returns is normal.
pub write_request-IsRequest :
    (a : WriteArguments) (r : CheckpointWriteRequest) → write_request a ≡ ok r → IsRequest r
unfolding write_request
write_request-IsRequest a r h = on_ok (normalize_checkpoint_run_id a.run_id) _ h λ run h1 k1.
    on_ok (normalize_checkpoint_namespace a.checkpoint_namespace) _ k1 λ space h2 k2.
      on_ok (normalize_checkpoint_id a.checkpoint_id) _ k2 λ id h3 k3.
        on_ok (normalize_parent a.parent_checkpoint_id) _ k3 λ parent h4 k4.
          on_ok (normalize_checkpoint_body a.body) _ k4 λ body h5 k5.
            on_ok (normalize_checkpoint_serializer_name a.serializer_name) _ k5 λ serializer h6 k6.
              on_ok (normalize_checkpoint_serializer_version a.serializer_version) _ k6
                λ version h7 k7.
                  on_ok (normalize_checkpoint_content_type a.content_type) _ k7 λ content h8 k8.
                    on_ok (guard (not (is_self_parent parent id)) _) _ k8 λ u h9 k9.
                      on_ok (normalize_checkpoint_metadata a.metadata) _ k9 λ metadata h10 k10.
                        subst IsRequest (ok-injective k10) (record {
                          run_id = normalize_run_id_stable a.run_id run h1;
                          checkpoint_namespace =
                              normalize_namespace_stable a.checkpoint_namespace space h2;
                          checkpoint_id = normalize_id_stable a.checkpoint_id id h3;
                          parent = normalize_parent_stable a.parent_checkpoint_id parent h4;
                          serializer_name =
                              normalize_serializer_name_stable a.serializer_name serializer h6;
                          serializer_version =
                              normalize_serializer_version_stable a.serializer_version version h7;
                          content_type = normalize_content_type_stable a.content_type content h8;
                          metadata = normalize_metadata_stable a.metadata metadata h10;
                          not_self_parent = not_true (is_self_parent parent id) _ h9;
                        })

-- A normal request makes a descriptor, with the fields that are asked for.
pub stored_checkpoint_normal :
    (d : StoredCheckpoint)
    → normalize_checkpoint_run_id (run_id_value d.run_id) ≡ ok d.run_id
    → normalize_checkpoint_namespace (str d.checkpoint_namespace) ≡ ok d.checkpoint_namespace
    → normalize_checkpoint_id (str d.checkpoint_id) ≡ ok d.checkpoint_id
    → normalize_parent (parent_value d.parent_checkpoint_id) ≡ ok d.parent_checkpoint_id
    → 0 < d.revision
    → normalize_checkpoint_serializer_name (str d.serializer_name) ≡ ok d.serializer_name
    → normalize_checkpoint_serializer_version (int d.serializer_version) ≡ ok d.serializer_version
    → normalize_checkpoint_content_type (str d.content_type) ≡ ok d.content_type
    → is_digest d.digest ≡ true
    → normalize_checkpoint_metadata (dict d.metadata) ≡ ok d.metadata
    → stored_checkpoint d ≡ ok d
unfolding stored_checkpoint
stored_checkpoint_normal d h1 h2 h3 h4 h5 h6 h7 h8 h9 h10 =
    simp (h1, h2, h3, h4, lt→ltb 0 d.revision h5, h6, h7, h8, h9, h10)
