-- ===== src/Paths/Tests.antt =====
-- paths.py and the move of the staging files on small directories.
use personal_knowledge_base.Base.{String, ◌≡◌, refl, false, none, some, List, [], ◌∷◌, map}
use personal_knowledge_base.Base.Text.{str_leb}
use personal_knowledge_base.Base.Sort.{sorted}
use personal_knowledge_base.Base.Dict.{get, put, delete}
use personal_knowledge_base.Paths.Decimal.{decimal}
use personal_knowledge_base.Paths.Names.{is_taken, next_available_path, file_name}
use personal_knowledge_base.Paths.Free.{next_available_path-free}
use personal_knowledge_base.Paths.Staged.{
  Directories, path_leb, move_staging_orphan, isolate_staging_orphans,
}
use personal_knowledge_base.Paths.Isolated.{isolate-keeps_content}

abbrev directory : List String
directory = "a.md" ∷ "a 2.md" ∷ ".env" ∷ []

third : next_available_path directory "a.md" ≡ "a 3.md"
unfolding next_available_path decimal
third = refl

hidden : next_available_path directory ".env" ≡ ".env 2"
unfolding next_available_path decimal
hidden = refl

next_available_path-free_example : is_taken directory (next_available_path directory "a.md") ≡ false
next_available_path-free_example = next_available_path-free directory "a.md"

-- Two staging files with one name, beside an orphan of that name.
abbrev left_over : Directories
left_over = record {
  staging = ("b/a.tmp", "two") ∷ ("a.tmp", "one") ∷ [];
  orphans = ("a.tmp", "old") ∷ [];
}

abbrev aside : Directories
aside = record {
  staging = [];
  orphans = ("a.tmp", "old") ∷ ("a 2.tmp", "one") ∷ ("a 3.tmp", "two") ∷ [];
}

isolated : isolate_staging_orphans left_over ≡ ("a 2.tmp" ∷ "a 3.tmp" ∷ [], aside)
unfolding isolate_staging_orphans move_staging_orphan next_available_path decimal file_name sorted
    str_leb get put delete
isolated = refl

isolate-keeps_content_example :
    ((path : String) → get aside.staging path ≡ none)
    × (map (get aside.orphans) ("a 2.tmp" ∷ "a 3.tmp" ∷ [])
        ≡ map (λ f. some f.1) (sorted path_leb left_over.staging))
    × ((name content : String)
        → get left_over.orphans name ≡ some content
        → get aside.orphans name ≡ some content)
isolate-keeps_content_example =
    isolate-keeps_content left_over aside ("a 2.tmp" ∷ "a 3.tmp" ∷ []) isolated
