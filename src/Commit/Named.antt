-- ===== src/Commit/Named.antt =====
-- sync_commit.py: the table of a request that is built has the ids that the manifest's own checks ask for.
use mathlib.Core.Path.{subst}
use personal_knowledge_base.Base.{
  String, ◌==◌, eq_iff, ◌≡◌, refl, ap, sym, ◌∙◌, false, not, ◌&&◌, some, List, [], ◌∷◌, map, All,
  Has, Has-map, Has-of_map, any_of_Has, All-Has, Apart, Has-of_any, inl, inr, arith, Bool-cases,
}
use personal_knowledge_base.Base.Dict.{Dict, get}
use personal_knowledge_base.Base.Index.{index, index_found, Has-index, is_in, Has-of_get}
use personal_knowledge_base.Base.Exec.{
  ok, raise_if, require, >>=_inv, raise_if-eq-ok, require-eq, key_error, value_error,
}
use personal_knowledge_base.Models.{type_eq, ManifestFileEntry, new_manifest_file_entry}
use personal_knowledge_base.Commit.Snapshot.{sets_differ}
use personal_knowledge_base.Commit.Table.{CommitSnapshotEntry}
use personal_knowledge_base.Commit.Network.{entry_key, manifest_key, check_entry, check_entries}

-- Each file has its own entry.
abbrev pub OneEach : List CommitSnapshotEntry → Type 0
OneEach = Apart (λ x y. x.file_id == y.file_id)

-- Each file passes the checks of its constructor.
abbrev pub AllChecked : List ManifestFileEntry → Type 0
AllChecked = All (λ f. new_manifest_file_entry f ≡ ok f)

OneEach-same :
    (es : List CommitSnapshotEntry) (a b : CommitSnapshotEntry)
    → OneEach es
    → Has a es
    → Has b es
    → a.file_id ≡ b.file_id
    → a ≡ b
OneEach-same [] a b one ha hb e = absurd ha
OneEach-same (x ∷ es) a b one (inl p) (inl q) e = p ∙ sym q
OneEach-same (x ∷ es) a b one (inl p) (inr hb) e =
    let apart = All-Has _ b es one.0 hb in
    let equal = (eq_iff x.file_id b.file_id).1 (ap entry_key (sym p) ∙ e) in
    absurd (let clash = sym equal ∙ apart in cc)
OneEach-same (x ∷ es) a b one (inr ha) (inl q) e =
    let apart = All-Has _ a es one.0 ha in
    let equal = (eq_iff x.file_id a.file_id).1 (ap entry_key (sym q) ∙ sym e) in
    absurd (let clash = sym equal ∙ apart in cc)
OneEach-same (x ∷ es) a b one (inr ha) (inr hb) e = OneEach-same es a b one.1 ha hb e

checked-named :
    (f : ManifestFileEntry)
    → new_manifest_file_entry f ≡ ok f
    → ((f.blob_id == "") ≡ false) × ((f.file_id == "") ≡ false)
unfolding new_manifest_file_entry
checked-named f e = ground arith

check_entries-Has :
    (entries : Dict CommitSnapshotEntry) (items : List (String × ManifestFileEntry))
    (item : String × ManifestFileEntry)
    → check_entries entries items ≡ ok tt
    → Has item items
    → check_entry entries item ≡ ok tt
unfolding check_entries
check_entries-Has entries [] item e h = absurd h
check_entries-Has entries (x ∷ items) item e h =
    let (_, first, rest) = >>=_inv (check_entry entries x) _ e in
    elim h [
      | inl same ↦ ap (check_entry entries) same ∙ first
      | inr later ↦ check_entries-Has entries items item rest later
    ]

check_entry-blob :
    (entries : Dict CommitSnapshotEntry) (i : String) (f : ManifestFileEntry)
    → check_entry entries (i, f) ≡ ok tt
    → (e : CommitSnapshotEntry) × (get entries i ≡ some e) × (f.blob_id ≡ e.blob_id)
unfolding check_entry
check_entry-blob entries i f h =
    let (e, has, h₁) = >>=_inv (require (get entries i) (key_error i [])) _ h in
    let (_, _, h₂) = >>=_inv (raise_if (not (f.path == e.path && type_eq f.type e.type)) _) _ h₁ in
    let (_, _, h₃) = >>=_inv (raise_if (not (f.content_hash == e.content_hash)) _) _ h₂ in
    let other_blob =
      value_error "commit submission manifest blob id mismatch for file_id" (i ∷ []) in
    let (_, same, _) = >>=_inv (raise_if (not (f.blob_id == e.blob_id)) other_blob) _ h₃ in
    (
      e,
      require-eq (get entries i) (key_error i []) has,
      (eq_iff f.blob_id e.blob_id).0
          (ground (arith, raise_if-eq-ok (not (f.blob_id == e.blob_id)) other_blob same)),
    )

in_both : (a b : List String) (s : String) → sets_differ a b ≡ false → Has s b → Has s a
in_both a b s e h = elim (Bool-cases (is_in s a)) [
  | inl known ↦
      let (t, has, same) = Has-of_any (λ t. t == s) a known in
      subst (λ x. Has x a) ((eq_iff t s).0 same) has
  | inr unknown ↦
      absurd (ground (arith, any_of_Has (λ x. not (is_in x a)) s b h (rw unknown refl), e))
]

module _ (files : List ManifestFileEntry) (entries : List CommitSnapshotEntry) where
  pub entry-named :
      (e : CommitSnapshotEntry)
      → OneEach entries
      → AllChecked files
      → sets_differ (map manifest_key files) (map entry_key entries) ≡ false
      → check_entries (index entry_key [] entries) (index manifest_key [] files) ≡ ok tt
      → Has e entries
      → ((e.blob_id == "") ≡ false) × ((e.file_id == "") ≡ false)
  entry-named e one checked same_sets passes here =
      let id_in =
        in_both (map manifest_key files) (map entry_key entries) e.file_id same_sets
          (Has-map entry_key e entries here) in
      let (f, has_f, f_id) = Has-of_map manifest_key e.file_id files id_in in
      let (g, indexed) = Has-index manifest_key [] files f has_f in
      let at_id : get (index manifest_key [] files) e.file_id ≡ some g =
        ap (get (index manifest_key [] files)) (sym f_id) ∙ indexed in
      let (has_g, g_id) = index_found manifest_key files e.file_id g at_id in
      let item = Has-of_get (index manifest_key [] files) e.file_id g at_id in
      let (x, found, blob) = check_entry-blob (index entry_key [] entries) e.file_id g (
        check_entries-Has (index entry_key [] entries) (index manifest_key [] files) (e.file_id, g)
          passes item) in
      let (has_x, x_id) = index_found entry_key entries e.file_id x found in
      let is_e = OneEach-same entries x e one has_x here x_id in
      let (g_blob, g_file) = checked-named g (All-Has _ g files checked has_g) in
      (
        ap (λ b. b == "") (sym (blob ∙ ap (λ (y : CommitSnapshotEntry). y.blob_id) is_e)) ∙ g_blob,
        ap (λ b. b == "") (sym g_id) ∙ g_file,
      )
