-- ===== src/Entity.antt =====
-- crates/ultramem-core/src/entity.rs: the normal form of an entity's name, and its resolution.
use ultramem.Prelude.{
  Text, same, Unicode, trim, trim_matches, is_empty, Bool, true, false, not, ◌&&◌, List, [], ◌∷◌,
  ◌++◌, find, Option, none, some, if◌then◌else◌,
}
use ultramem.Db.Rows.{AliasEntry}

-- The loop over the characters, with the output so far and whether the last one was white space.
unfoldable pub fold_chars : Unicode → Text → Bool → Text → Text
fold_chars u out prev_space [] = out
fold_chars u out prev_space (c ∷ s) =
    if u.is_whitespace c
    then fold_chars u (if not prev_space && not (is_empty out) then out ++ 32 ∷ [] else out) true s
    else fold_chars u (out ++ u.to_lowercase c) false s

unfoldable pub normalize : Unicode → Text → Text
unfolding fold_chars trim_matches
normalize u s = fold_chars u [] false (trim_matches (λ c. not (u.is_alphanumeric c)) (trim u s))

abbrev pub canonical_or : Text → Option AliasEntry → Text
canonical_or name none = name
canonical_or name (some a) = a.canonical

unfoldable pub resolve_name : Unicode → Text → List AliasEntry → Text
unfolding normalize
resolve_name u name aliases =
    canonical_or (trim u name) (find (λ a. same a.alias (normalize u name)) aliases)
