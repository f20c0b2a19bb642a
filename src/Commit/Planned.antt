-- ===== src/Commit/Planned.antt =====
-- sync_commit.py: the upload plan has what it needs of each file whose blob the server lacks.
use mathlib.Core.Option.{some-injective}
use mathlib.Core.Path.{subst}
use personal_knowledge_base.Base.{
  String, ◌==◌, eq_iff, ◌≡◌, refl, ap, sym, ◌∙◌, true, false, not, none, some, List, [], ◌∷◌,
  filter, map, nat_eq, Has, Has-map, Has-append_left, Has-append_right, Bool-cases, Option-cases,
  inl, inr, arith,
}
use personal_knowledge_base.Base.Dict.{Dict, get, put, get-put, get-put_same}
use personal_knowledge_base.Base.Index.{is_in}
use personal_knowledge_base.Base.Sort.{sorted, sorted-Has}
use personal_knowledge_base.Base.Exec.{ok, raise_if, >>=_inv, ok-injective, raise_if-eq-ok}
use personal_knowledge_base.Commit.Table.{CommitSnapshotEntry, CommitSnapshotTable}
use personal_knowledge_base.Commit.Network.{
  blob_id_of, refuse, BlobUploadPlanEntry, BlobUploadPlan, first_upload, share_upload, plan_upload,
  upload_loop, upload_leb, upload_of, build_blob_upload_plan,
}
use personal_knowledge_base.Commit.Uploads.{Has-is_in}

-- The upload is that of the file's blob, and names the file.
pub record Serves (u : BlobUploadPlanEntry) (e : CommitSnapshotEntry) : Type 0 where
  pub blob : u.blob_id ≡ e.blob_id
  pub hash : u.content_hash ≡ e.content_hash
  pub size : u.encrypted_size ≡ e.encrypted_size
  pub staged : u.blob_staging_path ≡ e.blob_staging_path
  pub named : Has e.file_id u.file_ids

record IsGrown (u w : BlobUploadPlanEntry) : Type 0 where
  files : (f : String) → Has f u.file_ids → Has f w.file_ids
  rest : record u { file_ids = w.file_ids } ≡ w

IsGrown-refl : (u : BlobUploadPlanEntry) → IsGrown u u
IsGrown-refl u = record { files = λ f h. h; rest = refl }

IsGrown-trans : (u v w : BlobUploadPlanEntry) → IsGrown u v → IsGrown v w → IsGrown u w
IsGrown-trans u v w g h = record {
  files = λ f has. h.files f (g.files f has);
  rest = ap (λ (x : BlobUploadPlanEntry). record x { file_ids = w.file_ids }) g.rest ∙ h.rest;
}

grown-Serves :
    (u w : BlobUploadPlanEntry) (e : CommitSnapshotEntry) → IsGrown u w → Serves u e → Serves w e
grown-Serves u w e g s = record {
  blob = sym (ap (λ (x : BlobUploadPlanEntry). x.blob_id) g.rest) ∙ s.blob;
  hash = sym (ap (λ (x : BlobUploadPlanEntry). x.content_hash) g.rest) ∙ s.hash;
  size = sym (ap (λ (x : BlobUploadPlanEntry). x.encrypted_size) g.rest) ∙ s.size;
  staged = sym (ap (λ (x : BlobUploadPlanEntry). x.blob_staging_path) g.rest) ∙ s.staged;
  named = g.files e.file_id s.named;
}

-- Each upload stands under its blob.
abbrev IsKeyed : Dict BlobUploadPlanEntry → Type 0
IsKeyed d = (b : String) (u : BlobUploadPlanEntry) → get d b ≡ some u → u.blob_id ≡ b

-- What a step does: the plan before it is kept, and the file is served if its blob is missing.
record Planned (missing : List String) (d after : Dict BlobUploadPlanEntry)
    (e : CommitSnapshotEntry) : Type 0 where
  keyed : IsKeyed after
  kept :
      (b : String) (u : BlobUploadPlanEntry)
      → get d b ≡ some u
      → (w : BlobUploadPlanEntry) × (get after b ≡ some w) × IsGrown u w
  served :
      is_in e.blob_id missing ≡ true
      → (w : BlobUploadPlanEntry) × (get after e.blob_id ≡ some w) × Serves w e

share_upload-Serves :
    (existing u : BlobUploadPlanEntry) (e : CommitSnapshotEntry)
    → existing.blob_id ≡ e.blob_id
    → share_upload existing e ≡ ok u
    → IsGrown existing u × Serves u e
unfolding share_upload
share_upload-Serves existing u e id h =
    let (_, hash, h₁) = >>=_inv (raise_if (not (existing.content_hash == e.content_hash)) _) _ h in
    let (_, size, h₂) =
      >>=_inv (raise_if (not (nat_eq existing.encrypted_size e.encrypted_size)) _) _ h₁ in
    let (_, staged, h₃) =
      >>=_inv (raise_if (not (existing.blob_staging_path == e.blob_staging_path)) _) _ h₂ in
    subst (λ (x : BlobUploadPlanEntry). IsGrown existing x × Serves x e) (ok-injective h₃)
      (
        record {
          files = λ f has. Has-append_left f existing.file_ids (e.file_id ∷ []) has;
          rest = refl;
        },
        record {
          blob = id;
          hash = (eq_iff existing.content_hash e.content_hash).0 (
              ground
                (arith, raise_if-eq-ok (not (existing.content_hash == e.content_hash)) _ hash));
          size = ground (
            arith,
            raise_if-eq-ok (not (nat_eq existing.encrypted_size e.encrypted_size)) _ size,
          );
          staged = (eq_iff existing.blob_staging_path e.blob_staging_path).0 (
              ground (
                arith,
                raise_if-eq-ok (not (existing.blob_staging_path == e.blob_staging_path)) _ staged,
              ));
          named = Has-append_right e.file_id existing.file_ids (e.file_id ∷ []) (inl refl);
        },
      )

-- To store an upload under its blob, which has no other file than those it names.
put-Planned :
    (missing : List String) (d : Dict BlobUploadPlanEntry) (e : CommitSnapshotEntry)
    (w : BlobUploadPlanEntry)
    → IsKeyed d
    → Serves w e
    → ((u : BlobUploadPlanEntry) → get d e.blob_id ≡ some u → IsGrown u w)
    → Planned missing d (put d e.blob_id w) e
put-Planned missing d e w keyed serves grows = record {
  keyed = λ b u h. elim (Bool-cases (e.blob_id == b)) [
    | inl same ↦
        let is_w = some-injective w u (sym (get-put d e.blob_id b w ∙ rw same refl) ∙ h) in
        ap (λ (x : BlobUploadPlanEntry). x.blob_id) (sym is_w)
        ∙ serves.blob
        ∙ (eq_iff e.blob_id b).0 same
    | inr other ↦ keyed b u (sym (get-put d e.blob_id b w ∙ rw other refl) ∙ h)
  ];
  kept = λ b u h. elim (Bool-cases (e.blob_id == b)) [
    | inl same ↦ (
      w,
      get-put d e.blob_id b w ∙ rw same refl,
      grows u (ap (get d) ((eq_iff e.blob_id b).0 same) ∙ h),
    )
    | inr other ↦ (u, get-put d e.blob_id b w ∙ rw other h, IsGrown-refl u)
  ];
  served = λ h. (w, get-put_same d e.blob_id w, serves);
}

plan_upload-Planned :
    (missing : List String) (d after : Dict BlobUploadPlanEntry) (e : CommitSnapshotEntry)
    → IsKeyed d
    → plan_upload missing d e ≡ ok after
    → Planned missing d after e
unfolding plan_upload
plan_upload-Planned missing d after e keyed h = elim (Bool-cases (is_in e.blob_id missing)) [
  | inr skip ↦
      subst (λ x. Planned missing d x e) (ok-injective (rw skip at h))
        (record {
          keyed = keyed;
          kept = λ b u has. (u, has, IsGrown-refl u);
          served = λ lacks. absurd (let clash = sym lacks ∙ skip in true_ne clash);
        })
  | inl lacks ↦ elim (Option-cases (get d e.blob_id)) [
    | inl new ↦
        subst (λ x. Planned missing d x e) (ok-injective (rw (lacks, new) at h))
          (put-Planned missing d e (first_upload e) keyed
            (record { blob = refl; hash = refl; size = refl; staged = refl; named = inl refl })
            (λ u has. absurd (none_ne u (sym new ∙ has))))
    | inr (existing, has) ↦
        let (w, shared, end) = >>=_inv (share_upload existing e) _ (rw (lacks, has) at h) in
        let (grown, serves) =
          share_upload-Serves existing w e (keyed e.blob_id existing has) shared in
        subst (λ x. Planned missing d x e) (ok-injective end)
          (put-Planned missing d e w keyed serves
            (λ u at. subst (λ x. IsGrown x w) (some-injective existing u (sym has ∙ at)) grown))
  ]
]
  where
    true_ne : true ≡ false → ⊥
    true_ne h = absurd (ground (arith, h))

    none_ne : (u : BlobUploadPlanEntry) → none ≡ some u → ⊥
    none_ne u h = cc

loop-Planned :
    (missing : List String) (d after : Dict BlobUploadPlanEntry) (es : List CommitSnapshotEntry)
    → IsKeyed d
    → upload_loop missing d es ≡ ok after
    → ((b : String) (u : BlobUploadPlanEntry)
        → get d b ≡ some u
        → (w : BlobUploadPlanEntry) × (get after b ≡ some w) × IsGrown u w)
      × ((e : CommitSnapshotEntry)
          → Has e es
          → is_in e.blob_id missing ≡ true
          → (w : BlobUploadPlanEntry) × (get after e.blob_id ≡ some w) × Serves w e)
unfolding upload_loop
loop-Planned missing d after [] keyed h = (
  λ b u has. (u, ap (λ x. get x b) (sym (ok-injective h)) ∙ has, IsGrown-refl u),
  λ e never. absurd never,
)
loop-Planned missing d after (e ∷ rest) keyed h =
    let (more, step, h₁) = >>=_inv (plan_upload missing d e) _ h in
    let p = plan_upload-Planned missing d more e keyed step in
    let (kept, served) = loop-Planned missing more after rest p.keyed h₁ in
    (
      λ b u has.
          let (v, has_v, g₁) = p.kept b u has in
          let (w, has_w, g₂) = kept b v has_v in (w, has_w, IsGrown-trans u v w g₁ g₂),
      λ x has lacks. elim has [
        | inr later ↦ served x later lacks
        | inl same ↦
            let (v, has_v, s) =
              p.served
                (ap (λ (y : CommitSnapshotEntry). is_in y.blob_id missing) (sym same) ∙ lacks) in
            let (w, has_w, g) = kept e.blob_id v has_v in
            subst
              (λ (y : CommitSnapshotEntry).
                (z : BlobUploadPlanEntry) × (get after y.blob_id ≡ some z) × Serves z y)
              (sym same) (w, has_w, grown-Serves v w e g s)
      ],
    )

get-Has :
    (d : Dict BlobUploadPlanEntry) (b : String) (u : BlobUploadPlanEntry)
    → get d b ≡ some u
    → Has u (map upload_of d)
unfolding get
get-Has [] b u h = cc
get-Has ((k, w) ∷ d) b u h = elim (Bool-cases (k == b)) [
  | inl same ↦ inl (sym (some-injective w u (rw same at h)))
  | inr other ↦ inr (get-Has d b u (rw other at h))
]

Has-map_pair :
    (d : List (String × BlobUploadPlanEntry)) (u : BlobUploadPlanEntry)
    → Has u (map upload_of d)
    → (p : String × BlobUploadPlanEntry) × Has p d × (upload_of p ≡ u)
Has-map_pair [] u h = absurd h
Has-map_pair (p ∷ d) u (inl e) = (p, inl refl, sym e)
Has-map_pair (p ∷ d) u (inr later) = let (q, has, e) = Has-map_pair d u later in (q, inr has, e)

-- If the upload plan of a commit is built, then for each file of the commit whose blob is listed as
-- missing it has an upload of that blob, with the file's hash, size and staging path, that names the file.
pub upload_plan-Serves :
    (table : CommitSnapshotTable) (missing : List String) (plan : BlobUploadPlan)
    (e : CommitSnapshotEntry)
    → build_blob_upload_plan table missing ≡ ok plan
    → Has e table.entries
    → Has e.blob_id missing
    → (u : BlobUploadPlanEntry) × Has u plan.entries × Serves u e
unfolding build_blob_upload_plan get
upload_plan-Serves table missing plan e h has lacks =
    let (_, _, h₁) =
      >>=_inv (refuse _ (filter (λ i. not (is_in i (map blob_id_of table.entries))) missing)) _ h in
    let (uploads, looped, h₂) = >>=_inv (upload_loop missing [] table.entries) _ h₁ in
    let (_, served) = loop-Planned missing [] uploads table.entries (λ b u never. cc) looped in
    let (w, at, serves) = served e has (Has-is_in e.blob_id missing lacks) in
    let (p, in_uploads, is_w) = Has-map_pair uploads w (get-Has uploads e.blob_id w at) in
    let listed =
      Has-map upload_of p (sorted upload_leb uploads)
        (sorted-Has upload_leb p uploads in_uploads) in
    (
      w,
      subst (λ (x : BlobUploadPlan). Has w x.entries) (ok-injective h₂)
          (subst (λ u. Has u (map upload_of (sorted upload_leb uploads))) is_w listed),
      serves,
    )
