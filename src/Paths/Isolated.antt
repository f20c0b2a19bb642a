-- ===== src/Paths/Isolated.antt =====
-- sync_commit.py: the directories before and after the move of the staging files.
use personal_knowledge_base.Base.{
  String, ◌==◌, eq_iff, ◌≡◌, refl, ap, sym, ◌∙◌, true, Bool-cases, inl, inr, Option, none, some,
  List, [], ◌∷◌, map, arith, Has, ◌≢◌,
}
use personal_knowledge_base.Base.Index.{Has-of_get}
use personal_knowledge_base.Base.Sort.{sorted, sorted-Has}
use personal_knowledge_base.Base.Dict.{Dict, get, get-put_same, get-put_other, get-delete}
use personal_knowledge_base.Paths.Names.{is_taken, next_available_path, file_name}
use personal_knowledge_base.Paths.Free.{next_available_path-free}
use personal_knowledge_base.Paths.Staged.{
  Directories, names, move_staging_orphan, isolate_loop, path_leb, isolate_staging_orphans,
}

taken_of_get : (d : Dict String) (k v : String) → get d k ≡ some v → is_taken (names d) k ≡ true
unfolding get
taken_of_get [] k v h = absurd (ground arith)
taken_of_get ((j, w) ∷ d) k v h = ground (arith, taken_of_get d k v)

-- The orphan of before is another file than the one that is written.
move-keeps :
    (file : String × String) (d : Directories) (k v : String)
    → get d.orphans k ≡ some v
    → get (move_staging_orphan file d).1.orphans k ≡ some v
unfolding move_staging_orphan
move-keeps (path, content) d k v h =
    let free = next_available_path-free (names d.orphans) (file_name path) in
    let other : next_available_path (names d.orphans) (file_name path) ≢ k =
      λ e. absurd (let t = taken_of_get d.orphans k v h in cc) in
    get-put_other d.orphans (next_available_path (names d.orphans) (file_name path)) k content other
    ∙ h

loop-keeps :
    (files : List (String × String)) (d : Directories) (k v : String)
    → get d.orphans k ≡ some v
    → get (isolate_loop files d).1.orphans k ≡ some v
unfolding isolate_loop
loop-keeps [] d k v h = h
loop-keeps (file ∷ files) d k v h =
    loop-keeps files (move_staging_orphan file d).1 k v (move-keeps file d k v h)

loop-stores :
    (files : List (String × String)) (d : Directories)
    → map (get (isolate_loop files d).1.orphans) (isolate_loop files d).0
      ≡ map (λ f. some f.1) files
unfolding isolate_loop move_staging_orphan
loop-stores [] d = refl
loop-stores ((path, content) ∷ files) d =
    let target = next_available_path (names d.orphans) (file_name path) in
    let moved = (move_staging_orphan (path, content) d).1 in
    let first : get (isolate_loop files moved).1.orphans target ≡ some content =
      loop-keeps files moved target content (get-put_same d.orphans target content) in
    let rest = loop-stores files moved in cc

none_unless_some : (o : Option String) → ((v : String) → o ≡ some v → ⊥) → o ≡ none
none_unless_some none h = refl
none_unless_some (some v) h = absurd (h v refl)

loop-clears :
    (files : List (String × String)) (d : Directories) (k : String)
    → ((v : String) → get d.staging k ≡ some v → Has (k, v) files)
    → get (isolate_loop files d).1.staging k ≡ none
unfolding isolate_loop move_staging_orphan
loop-clears [] d k h = none_unless_some (get d.staging k) h
loop-clears ((path, content) ∷ files) d k h =
    loop-clears files (move_staging_orphan (path, content) d).1 k (λ v found.
      elim (Bool-cases (path == k)) [
        | inl e ↦ absurd (ground (arith, get-delete d.staging path k, found))
        | inr e ↦ elim (h v (ground (arith, get-delete d.staging path k, found))) [
          | inl same ↦ absurd (
              let same_path : k ≡ path = ap (λ (p : String × String). p.0) same in
              ground (arith, eq_iff path k, same_path))
          | inr later ↦ later
        ]
      ])

-- Once the staging files are moved, none is left; the paths that are returned hold what the staging files
-- held, in the order of their relative paths; and every orphan of before holds what it held.
pub isolate-keeps_content :
    (before after : Directories) (moved_paths : List String)
    → isolate_staging_orphans before ≡ (moved_paths, after)
    → ((path : String) → get after.staging path ≡ none)
      × (map (get after.orphans) moved_paths ≡ map (λ f. some f.1) (sorted path_leb before.staging))
      × ((name content : String)
          → get before.orphans name ≡ some content
          → get after.orphans name ≡ some content)
unfolding isolate_staging_orphans
isolate-keeps_content before after moved_paths e =
    let files = sorted path_leb before.staging in
    let after_is : (isolate_loop files before).1 ≡ after =
      ap (λ (p : List String × Directories). p.1) e in
    let paths_are : (isolate_loop files before).0 ≡ moved_paths =
      ap (λ (p : List String × Directories). p.0) e in
    (
      λ path.
          ap (λ (d : Directories). get d.staging path) (sym after_is)
          ∙ loop-clears files before path (λ v found.
            sorted-Has path_leb (path, v) before.staging (Has-of_get before.staging path v found)),
      ap (λ (p : List String × Directories). map (get p.1.orphans) p.0) (sym e)
          ∙ loop-stores files before,
      λ name content found.
          ap (λ (d : Directories). get d.orphans name) (sym after_is)
          ∙ loop-keeps files before name content found,
    )
