-- ===== src/Paths/Staged.antt =====
-- paths.py and sync_commit.py: files that an interrupted commit left in the staging directory are moved
-- aside. A directory is the dict from its files' paths, relative to it, to what they hold; only files
-- are in `.noteapp/staging-orphans`.
use personal_knowledge_base.Base.{String, Bool, List, [], ◌∷◌, map}
use personal_knowledge_base.Base.Text.{str_leb}
use personal_knowledge_base.Base.Sort.{sorted}
use personal_knowledge_base.Base.Dict.{Dict, put, delete}
use personal_knowledge_base.Paths.Names.{next_available_path, file_name}

pub record Directories : Type 0 where
  pub staging : Dict String
  pub orphans : Dict String

abbrev pub names : Dict String → List String
names directory = map (λ f. f.0) directory

-- The check that the file is in the staging directory holds of every relative path.
unfoldable pub move_staging_orphan : String × String → Directories → String × Directories
move_staging_orphan (staging_path, content) directories =
    let target = next_available_path (names directories.orphans) (file_name staging_path) in
    (
      target,
      record {
        staging = delete directories.staging staging_path;
        orphans = put directories.orphans target content;
      },
    )

unfoldable pub isolate_loop : List (String × String) → Directories → List String × Directories
isolate_loop [] directories = ([], directories)
isolate_loop (file ∷ files) directories =
    let moved = move_staging_orphan file directories in
    let rest = isolate_loop files moved.1 in (moved.0 ∷ rest.0, rest.1)

abbrev pub path_leb : String × String → String × String → Bool
path_leb a b = str_leb a.0 b.0

unfoldable pub isolate_staging_orphans : Directories → List String × Directories
unfolding isolate_loop
isolate_staging_orphans directories = isolate_loop (sorted path_leb directories.staging) directories
