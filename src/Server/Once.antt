-- ===== src/Server/Once.antt =====
-- sync_store.py: a commit that is sent again.
use personal_knowledge_base.Base.{
  ℕ, ◌<◌, length, length-append, arith, nat_eq, String, ◌==◌, eq_iff, ◌≡◌, ◌≢◌, refl, ap, sym, ◌∙◌,
  not, Option, none, some, List, inl, inr,
}
use personal_knowledge_base.Base.Dict.{Dict, get, get-put_other}
use personal_knowledge_base.Base.Exec.{ok, raise_if, >>=_inv, raise_if-eq-ok, commit_conflict}
use personal_knowledge_base.Models.{ManifestRecord}
use personal_knowledge_base.Manifest.{CanonicalPayload}
use personal_knowledge_base.Server.Vault.{
  FileVersionSource, ServerCommit, ServerVault, ServerState, ensure_vault, save_vault, acknowledge,
}
use personal_knowledge_base.Server.Commits.{
  CommitRequest, CommitResponse, committing_device, append_commit, commit_mutation, create_commit,
  repeat_commit, response_of, found, intent_status,
}
use personal_knowledge_base.Server.Collect.{gc_intent_id}
use personal_knowledge_base.Server.Effects.{Effect, keeps, appends}
use personal_knowledge_base.Server.Steps.{commits, ensure-save}
use personal_knowledge_base.Server.Steps.Effects.{
  step-Effect, create_commit-Effect, create_commit_inv,
}
use personal_knowledge_base.Server.History.{
  Logged, Logged-CommitsPast, ServerRun, done, followed, step_refines, run_refines,
}

-- An id that no run of the garbage collection writes.
abbrev pub IsClients : String → Type 0
IsClients i = (run_id : String) → i ≢ gc_intent_id run_id

Effect-keeps_commit :
    (v w : ServerVault) (i : String) (c : ServerCommit)
    → IsClients i
    → Effect v w
    → get v.commits i ≡ some c
    → get w.commits i ≡ some c
Effect-keeps_commit v w i c mine (keeps h ms s cs a) has =
    ap (λ (d : Dict ServerCommit). get d i) cs ∙ has
Effect-keeps_commit v w i c mine (appends m key x r b h ms s cs cr free a) has =
    ap (λ (d : Dict ServerCommit). get d i) cs
    ∙ get-put_other v.commits key i x (λ same. elim free [
      | inl new ↦ (let clash = sym new ∙ ap (get v.commits) same ∙ has in cc)
      | inr (run_id, e) ↦ mine run_id (sym same ∙ e)
    ])
    ∙ has

module _ (nfc : String → String) (digest : CanonicalPayload → String)
    (name : (vault_id file_id : String) (revision : ℕ) (blob_id : String)
      → FileVersionSource
      → String) where
  run-keeps_commit :
      (s t : ServerState) (vault_id i : String) (c : ServerCommit)
      (logs : String → List ManifestRecord)
      → Logged s logs
      → IsClients i
      → ServerRun nfc digest name s t
      → get (ensure_vault s vault_id).commits i ≡ some c
      → get (ensure_vault t vault_id).commits i ≡ some c
  run-keeps_commit s _ vault_id i c logs l mine done has = has
  run-keeps_commit s _ vault_id i c logs l mine (followed t u run step) has =
      let (after, _, at_t) = run_refines nfc digest name s t logs l run in
      Effect-keeps_commit (ensure_vault t vault_id) (ensure_vault u vault_id) i c mine
        (step-Effect nfc digest name t u vault_id (Logged-CommitsPast t after at_t) step)
        (run-keeps_commit s t vault_id i c logs l mine run has)

  -- From a state in which each vault stores a log: after a commit that returned, with an id that does not
  -- begin with `tombstone-gc:`, and any further calls, the server still finds the commit by its id and its
  -- hash, at the revision that the commit returned.
  pub commit-found :
      (logs : String → List ManifestRecord) (s t u : ServerState) (vault_id : String)
      (request : CommitRequest) (auth : Option String) (now_ms : ℕ) (response : CommitResponse)
      → Logged s logs
      → IsClients request.commit_intent_id
      → create_commit nfc digest name s vault_id request auth now_ms ≡ ok (response, t)
      → ServerRun nfc digest name t u
      → intent_status
          (ensure_vault u vault_id)
          request.commit_intent_id
          request.intent_manifest_hash
        ≡ found response.new_revision
  unfolding intent_status
  commit-found logs s t u vault_id request auth now_ms response l mine commit run =
      let past = Logged-CommitsPast s logs l in
      let (_, (c, has, same, revision)) =
        create_commit-Effect nfc digest name s t vault_id vault_id request auth now_ms response past
          commit in
      let (after, _, at_t) =
        step_refines nfc digest name s t logs l
          (commits vault_id request auth now_ms response commit) in
      let still =
        run-keeps_commit t u vault_id request.commit_intent_id c after at_t mine run has in
      rw (still, intent_status, (eq_iff c.intent_manifest_hash request.intent_manifest_hash).1 same)
        (ap found revision)

  -- A commit with a known id and the same hash passes the guards again, and writes no manifest.
  again :
      (s t u : ServerState) (vault_id : String) (request : CommitRequest) (auth : Option String)
      (now_ms later_ms : ℕ) (response : CommitResponse) (c : ServerCommit)
      → create_commit nfc digest name s vault_id request auth now_ms ≡ ok (response, t)
      → get (ensure_vault u vault_id).commits request.commit_intent_id ≡ some c
      → c.intent_manifest_hash ≡ request.intent_manifest_hash
      → let device = committing_device request auth in
        let acked = acknowledge (ensure_vault u vault_id) device c.revision in
        create_commit nfc digest name u vault_id request auth later_ms
        ≡ ok (
          response_of acked device c.revision (ensure_vault u vault_id).manifest_summary,
          save_vault u vault_id acked,
        )
  unfolding create_commit
  again s t u vault_id request auth now_ms later_ms response c e has same =
      let (_, g₁, e₁) = >>=_inv (raise_if (request.commit_intent_id == "") _) _ e in
      let (_, g₂, e₂) = >>=_inv (raise_if (request.intent_manifest_hash == "") _) _ e₁ in
      let (_, g₃, e₃) = >>=_inv (raise_if (not (request.manifest.vault_id == vault_id)) _) _ e₂ in
      let (_, g₄, e₄) =
        >>=_inv (raise_if (not (nat_eq request.manifest.base_revision request.base_revision)) _) _
          e₃ in
      let (_, g₅, e₅) = >>=_inv (raise_if (committing_device request auth == "") _) _ e₄ in
      rw
        (
          raise_if-eq-ok (request.commit_intent_id == "") _ g₁,
          raise_if-eq-ok (request.intent_manifest_hash == "") _ g₂,
          raise_if-eq-ok (not (request.manifest.vault_id == vault_id)) _ g₃,
          raise_if-eq-ok (not (nat_eq request.manifest.base_revision request.base_revision)) _ g₄,
          raise_if-eq-ok (committing_device request auth == "") _ g₅,
          commit_mutation,
          has,
          repeat_commit,
          (eq_iff c.intent_manifest_hash request.intent_manifest_hash).1 same,
        )
        refl

  -- From a state in which each vault stores a log: a commit that returned, with an id that does not begin
  -- with `tombstone-gc:`, sent again after any further calls, is answered with the revision that it had,
  -- and leaves the manifests, the head and the commit records of the vault as they are.
  pub commit-again :
      (logs : String → List ManifestRecord) (s t u : ServerState) (vault_id : String)
      (request : CommitRequest) (auth : Option String) (now_ms later_ms : ℕ)
      (response : CommitResponse)
      → Logged s logs
      → IsClients request.commit_intent_id
      → create_commit nfc digest name s vault_id request auth now_ms ≡ ok (response, t)
      → ServerRun nfc digest name t u
      → (answer : CommitResponse) × (w : ServerState) × (create_commit nfc digest name u vault_id
            request auth later_ms
          ≡ ok (answer, w))
        × (answer.new_revision ≡ response.new_revision)
        × ((ensure_vault w vault_id).manifests ≡ (ensure_vault u vault_id).manifests)
        × ((ensure_vault w vault_id).head_revision ≡ (ensure_vault u vault_id).head_revision)
        × ((ensure_vault w vault_id).commits ≡ (ensure_vault u vault_id).commits)
  unfolding acknowledge
  commit-again logs s t u vault_id request auth now_ms later_ms response l mine commit run =
      let past = Logged-CommitsPast s logs l in
      let (_, (c, has, same, revision)) =
        create_commit-Effect nfc digest name s t vault_id vault_id request auth now_ms response past
          commit in
      let (after, _, at_t) =
        step_refines nfc digest name s t logs l
          (commits vault_id request auth now_ms response commit) in
      let still =
        run-keeps_commit t u vault_id request.commit_intent_id c after at_t mine run has in
      let v = ensure_vault u vault_id in
      let acked = acknowledge v (committing_device request auth) c.revision in
      let stored : ensure_vault (save_vault u vault_id acked) vault_id ≡ acked =
        ensure-save u vault_id vault_id acked ∙ rw ((eq_iff vault_id vault_id).1 refl) refl in
      (
        response_of acked (committing_device request auth) c.revision v.manifest_summary,
        save_vault u vault_id acked,
        again s t u vault_id request auth now_ms later_ms response c commit still same,
        revision,
        ap (λ (x : ServerVault). x.manifests) stored,
        ap (λ (x : ServerVault). x.head_revision) stored,
        ap (λ (x : ServerVault). x.commits) stored,
      )

  new-at_head :
      (s t : ServerState) (vault_id : String) (request : CommitRequest) (auth : Option String)
      (now_ms : ℕ) (response : CommitResponse)
      → get (ensure_vault s vault_id).commits request.commit_intent_id ≡ none
      → create_commit nfc digest name s vault_id request auth now_ms ≡ ok (response, t)
      → request.base_revision ≡ (ensure_vault s vault_id).head_revision
  unfolding commit_mutation append_commit
  new-at_head s t vault_id request auth now_ms response new e =
      let (_, _, ran, _) =
        create_commit_inv nfc digest name s t vault_id request auth now_ms response e in
      let v = ensure_vault s vault_id in
      let (_, at_head, _) =
        >>=_inv
          (raise_if (not (nat_eq request.base_revision v.head_revision))
            (commit_conflict "base_revision_conflict" v.head_revision v.manifest_summary))
          _ (rw (new, commit_mutation) at ran) in
      ground (arith, raise_if-eq-ok (not (nat_eq request.base_revision v.head_revision)) _ at_head)

  -- From a state in which each vault stores a log: once a commit has returned a revision, and after any
  -- further calls, the server accepts no commit with an id that it has no record of and that is based on an
  -- earlier revision.
  pub commit-refuses_stale :
      (logs : String → List ManifestRecord) (s t u w : ServerState) (vault_id : String)
      (request stale : CommitRequest) (auth auth' : Option String) (now_ms later_ms : ℕ)
      (response answer : CommitResponse)
      → Logged s logs
      → create_commit nfc digest name s vault_id request auth now_ms ≡ ok (response, t)
      → ServerRun nfc digest name t u
      → stale.base_revision < response.new_revision
      → get (ensure_vault u vault_id).commits stale.commit_intent_id ≡ none
      → create_commit nfc digest name u vault_id stale auth' later_ms ≢ ok (answer, w)
  commit-refuses_stale logs s t u w vault_id request stale auth auth' now_ms later_ms response
        answer l commit run earlier new accepted =
      let past = Logged-CommitsPast s logs l in
      let (_, (c, has, same, revision)) =
        create_commit-Effect nfc digest name s t vault_id vault_id request auth now_ms response past
          commit in
      let (at, _, at_t) =
        step_refines nfc digest name s t logs l
          (commits vault_id request auth now_ms response commit) in
      let (after, extends, at_u) = run_refines nfc digest name t u at at_t run in
      let (more, longer) = extends vault_id in
      omega (
        arith,
        earlier,
        revision,
        (at_t vault_id).committed request.commit_intent_id c has,
        ap length longer ∙ length-append (at vault_id) more,
        (at_u vault_id).head,
        new-at_head u w vault_id stale auth' later_ms answer new accepted,
      )
