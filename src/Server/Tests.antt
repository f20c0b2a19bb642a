-- ===== src/Server/Tests.antt =====
-- A vault of one note and one deletion, through a commit and what follows it, and a blob's parts.
use Prim.Native.Char.{code}
use Prim.Native.String.{◌++◌}
use Prim.Native.String.append
use text.Mathlib.TextLemmas.{head-eq_of_cons-eq}
use personal_knowledge_base.Base.{
  ℕ, ◌+◌, ◌≤◌, ◌<◌, String, ◌≡◌, ◌≢◌, ◌⊎◌, refl, ap, ◌∙◌, true, Option, none, some, List, [], ◌∷◌,
  All, arith,
}
use personal_knowledge_base.Base.Dict.{get, put}
use personal_knowledge_base.Base.Exec.{ok, raise, traverse, store_error}
use personal_knowledge_base.Models.{ManifestRecord}
use personal_knowledge_base.Paths.Decimal.{decimal}
use personal_knowledge_base.Server.Vault.{ServerState, ensure_vault}
use personal_knowledge_base.Server.Chunks.{BlobChunk, blob_chunks, Tiles, blob_chunks-Tiles}
use personal_knowledge_base.Server.Ranges.{
  DownloadRange, resolve_download_ranges, range_is_authorized, authorized-IsInside,
}
use personal_knowledge_base.Server.Commits.{
  CommitRequest, CommitResponse, create_commit, found, intent_status,
}
use personal_knowledge_base.Server.Log.{Grows}
use personal_knowledge_base.Server.Steps.{commits, elsewhere}
use personal_knowledge_base.Server.History.{
  Logged, empty_state, empty-Logged, ServerRun, done, followed, step_refines, published,
}
use personal_knowledge_base.Server.Once.{
  IsClients, commit-found, commit-again, commit-refuses_stale,
}
use personal_knowledge_base.Server.Samples.{same, no_digest, version_name, manifest, value_or}

abbrev chunk_name : String → ℕ → ℕ → String
chunk_name blob_id offset size = blob_id

blob_chunks-Tiles_example :
    ((◌≡◌ {A = ℕ} 4 0)
      × (blob_chunks chunk_name "b1" 10 4
          ≡ raise (store_error "invalid_request" "chunk_size must be a positive integer")))
    ⊎ ((0 < 4)
        × ((chunks : List BlobChunk) × (blob_chunks chunk_name "b1" 10 4 ≡ ok chunks)
            × Tiles 0 10 chunks
            × All (λ c. c.size ≤ 4) chunks))
blob_chunks-Tiles_example = blob_chunks-Tiles chunk_name "b1" 10 4

abbrev granted : List DownloadRange
granted = record { offset = 0; size = 5 } ∷ []

resolved : resolve_download_ranges (some granted) 10 ≡ ok granted
unfolding resolve_download_ranges traverse
resolved = refl

authorized : range_is_authorized granted 2 3 ≡ true
unfolding range_is_authorized
authorized = refl

authorized-IsInside_example : 2 + 3 ≤ 10
authorized-IsInside_example = authorized-IsInside (some granted) 10 granted 2 3 resolved authorized

abbrev request : String → CommitRequest
request commit_intent_id = record {
  commit_intent_id = commit_intent_id;
  base_revision = 0;
  intent_manifest_hash = "sha256:i";
  manifest = manifest;
  created_by_device = some "d1";
  blob_refs = record { blob_id = "b1"; file_id = "f1" } ∷ [];
  file_version_directives = [];
}

-- The blob is uploaded.
abbrev uploaded : ServerState
uploaded = record empty_state {
  blobs =
      (
        "b1",
        record {
          blob_id = "b1";
          vault_id = "v";
          object_key = "v/b1";
          storage_backend = "local";
          status = "available";
          encrypted_size = 3;
          content_hash = "sha256:1";
          encrypted_sha256 = none;
          uploaded_at_ms = 5;
        },
      )
      ∷ [];
}

abbrev no_response : CommitResponse
no_response = record {
  new_revision = 0;
  head_manifest_summary = none;
  acked_revision_for_device = 0;
}

unfoldable outcome : CommitResponse × ServerState
unfolding create_commit
outcome =
    value_or (no_response, empty_state)
      (create_commit same no_digest version_name uploaded "v" (request "c1") none 7)

committed :
    create_commit same no_digest version_name uploaded "v" (request "c1") none 7
    ≡ ok (outcome.0, outcome.1)
unfolding create_commit outcome get traverse
committed = refl

uploaded-Logged : Logged uploaded (λ _. [])
unfolding ensure_vault
uploaded-Logged = λ i. empty-Logged i

step_refines_example :
    (after : String → List ManifestRecord) × ((i : String) → Grows [] (after i))
    × Logged outcome.1 after
step_refines_example =
    step_refines same no_digest version_name uploaded outcome.1 (λ _. []) uploaded-Logged
      (commits "v" (request "c1") none 7 outcome.0 committed)

run_uploaded : ServerRun same no_digest version_name empty_state uploaded
unfolding ensure_vault
run_uploaded = followed empty_state uploaded done (elsewhere (λ i. refl))

run_committed : ServerRun same no_digest version_name empty_state outcome.1
run_committed =
    followed uploaded outcome.1 run_uploaded (commits "v" (request "c1") none 7 outcome.0 committed)

abbrev some_or {ℓ} : {A : Type ℓ} → A → Option A → A
some_or a none = a
some_or a (some b) = b

unfoldable first_manifest : ManifestRecord
unfolding outcome ensure_vault get decimal
first_manifest = some_or manifest (get (ensure_vault outcome.1 "v").manifests (decimal 1))

has_first : get (ensure_vault outcome.1 "v").manifests (decimal 1) ≡ some first_manifest
unfolding first_manifest outcome ensure_vault get decimal traverse put
has_first = refl

published_example :
    (first_manifest.revision ≡ 1)
    × (first_manifest.base_revision ≡ 0)
    × (1 ≤ (ensure_vault outcome.1 "v").head_revision)
    × (get (ensure_vault outcome.1 "v").manifests (decimal 1) ≡ some first_manifest)
published_example =
    published same no_digest version_name outcome.1 outcome.1 "v" 0 first_manifest run_committed
      done has_first

c1-IsClients : IsClients "c1"
c1-IsClients run_id e = omega (
  arith,
  ap code (
      head-eq_of_cons-eq {xs = "1"} {ys = "ombstone-gc:" ++ run_id}
        (e ∙ append.cons "t" "ombstone-gc:" run_id)),
)

commit-found_example :
    intent_status (ensure_vault outcome.1 "v") "c1" "sha256:i" ≡ found outcome.0.new_revision
commit-found_example =
    commit-found same no_digest version_name (λ _. []) uploaded outcome.1 outcome.1 "v"
      (request "c1") none 7 outcome.0 uploaded-Logged c1-IsClients committed done

commit-again_example :
    (answer : CommitResponse) × (w : ServerState) × (create_commit same no_digest version_name
        outcome.1 "v"
        (request "c1")
        none
        9
      ≡ ok (answer, w))
    × (answer.new_revision ≡ outcome.0.new_revision)
    × ((ensure_vault w "v").manifests ≡ (ensure_vault outcome.1 "v").manifests)
    × ((ensure_vault w "v").head_revision ≡ (ensure_vault outcome.1 "v").head_revision)
    × ((ensure_vault w "v").commits ≡ (ensure_vault outcome.1 "v").commits)
commit-again_example =
    commit-again same no_digest version_name (λ _. []) uploaded outcome.1 outcome.1 "v"
      (request "c1") none 7 9 outcome.0 uploaded-Logged c1-IsClients committed done

new_revision_is_one : outcome.0.new_revision ≡ 1
unfolding outcome get traverse
new_revision_is_one = refl

c2-unknown : get (ensure_vault outcome.1 "v").commits "c2" ≡ none
unfolding outcome ensure_vault get traverse put
c2-unknown = refl

commit-refuses_stale_example :
    create_commit same no_digest version_name outcome.1 "v" (request "c2") none 9
    ≢ ok (no_response, empty_state)
commit-refuses_stale_example =
    commit-refuses_stale same no_digest version_name (λ _. []) uploaded outcome.1 outcome.1
      empty_state "v" (request "c1") (request "c2") none none 7 9 outcome.0 no_response
      uploaded-Logged committed done (omega (arith, new_revision_is_one)) c2-unknown
