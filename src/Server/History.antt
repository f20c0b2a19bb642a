-- ===== src/Server/History.antt =====
-- sync_store.py: what holds in every state of the server that its methods reach.
use mathlib.Core.List.{append_assoc}
use personal_knowledge_base.Base.{
  ℕ, ◌≤◌, suc, String, ◌≡◌, refl, ap, sym, ◌∙◌, some, List, [], ◌∷◌, ◌++◌, append-nil, arith,
}
use personal_knowledge_base.Base.Dict.{get}
use personal_knowledge_base.Models.{ManifestRecord}
use personal_knowledge_base.Manifest.{CanonicalPayload}
use personal_knowledge_base.Paths.Decimal.{decimal}
use personal_knowledge_base.Server.Vault.{FileVersionSource, ServerState, ensure_vault}
use personal_knowledge_base.Server.Log.{
  Represents, Grows, stays, grows, Effect-Represents, get_elem?, get_elem?-prefix, get_elem?-bound,
}
use personal_knowledge_base.Server.Steps.{ServerStep, CommitsPast}
use personal_knowledge_base.Server.Steps.Effects.{step-Effect}

-- Each vault stores its log.
abbrev pub Logged : ServerState → (String → List ManifestRecord) → Type 0
Logged s logs = (i : String) → Represents (ensure_vault s i) (logs i)

abbrev pub empty_state : ServerState
empty_state = record { devices = []; vaults = []; blobs = [] }

pub empty-Logged : Logged empty_state (λ _. [])
unfolding ensure_vault get
empty-Logged i = record {
  head = refl;
  entries = λ n. refl;
  summary = refl;
  numbered = λ n m h. cc;
  acked = λ j. omega arith;
  committed = λ j c h. cc;
}

pub Logged-CommitsPast :
    (s : ServerState) (logs : String → List ManifestRecord)
    → Logged s logs
    → (i : String) → CommitsPast (ensure_vault s i)
Logged-CommitsPast s logs l i j c has = omega (arith, (l i).committed j c has, (l i).head)

abbrev pub Extends : List ManifestRecord → List ManifestRecord → Type 0
Extends log after = (more : List ManifestRecord) × (after ≡ log ++ more)

Grows-Extends : (log after : List ManifestRecord) → Grows log after → Extends log after
Grows-Extends log _ stays = ([], sym (append-nil log))
Grows-Extends log _ (grows m) = (m ∷ [], refl)

Extends-trans : (a b c : List ManifestRecord) → Extends a b → Extends b c → Extends a c
Extends-trans a b c (xs, p) (ys, q) = (xs ++ ys, q ∙ ap (λ l. l ++ ys) p ∙ append_assoc a xs ys)

module _ (nfc : String → String) (digest : CanonicalPayload → String)
    (name : (vault_id file_id : String) (revision : ℕ) (blob_id : String)
      → FileVersionSource
      → String) where
  -- Calls that return, one after the other.
  pub data ServerRun (s : ServerState) : ServerState → Type 0 where
    done : ServerRun s s
    followed : (t u : ServerState) → ServerRun s t → ServerStep nfc digest name t u → ServerRun s u

  -- Where each vault stores a log, each vault stores a log after any call that returns, the deletion
  -- of a device included, and this log is the one before or that one with one manifest at its end.
  pub step_refines :
      (s t : ServerState) (logs : String → List ManifestRecord)
      → Logged s logs
      → ServerStep nfc digest name s t
      → (after : String → List ManifestRecord) × ((i : String) → Grows (logs i) (after i))
        × Logged t after
  step_refines s t logs l step =
      let at = λ (i : String).
        Effect-Represents (ensure_vault s i) (ensure_vault t i) (logs i)
          (step-Effect nfc digest name s t i (Logged-CommitsPast s logs l) step) (l i) in
      (λ i. (at i).0, λ i. (at i).1, λ i. (at i).2)

  pub run_refines :
      (s t : ServerState) (logs : String → List ManifestRecord)
      → Logged s logs
      → ServerRun s t
      → (after : String → List ManifestRecord) × ((i : String) → Extends (logs i) (after i))
        × Logged t after
  run_refines s _ logs l done = (logs, λ i. ([], sym (append-nil (logs i))), l)
  run_refines s _ logs l (followed t u run step) =
      let (middle, extends, at_t) = run_refines s t logs l run in
      let (after, growth, at_u) = step_refines t u middle at_t step in
      (
        after,
        λ i.
            Extends-trans (logs i) (middle i) (after i) (extends i)
              (Grows-Extends (middle i) (after i) (growth i)),
        at_u,
      )

  -- A manifest that a vault has at a revision in a state that calls reach from the empty state has that
  -- revision, is based on the one before, is not past the head, and is there after any further calls.
  pub published :
      (s t : ServerState) (vault_id : String) (n : ℕ) (m : ManifestRecord)
      → ServerRun empty_state s
      → ServerRun s t
      → get (ensure_vault s vault_id).manifests (decimal (suc n)) ≡ some m
      → (m.revision ≡ suc n)
        × (m.base_revision ≡ n)
        × (suc n ≤ (ensure_vault t vault_id).head_revision)
        × (get (ensure_vault t vault_id).manifests (decimal (suc n)) ≡ some m)
  published s t vault_id n m before after has =
      let (logs, _, at_s) = run_refines empty_state s (λ _. []) empty-Logged before in
      let (later, extends, at_t) = run_refines s t logs at_s after in
      let in_log = sym ((at_s vault_id).entries n) ∙ has in
      let (more, longer) = extends vault_id in
      let in_later =
        ap (λ l. get_elem? l n) longer ∙ get_elem?-prefix (logs vault_id) more n m in_log in
      let (revision, base) = (at_s vault_id).numbered n m in_log in
      (
        revision,
        base,
        omega (arith, (at_t vault_id).head, get_elem?-bound (later vault_id) n m in_later),
        (at_t vault_id).entries n ∙ in_later,
      )
