-- ===== src/Chunker/Doc.antt =====
-- crates/ultramem-core/src/engine/chunker.rs: chunk_doc, the strategy by the type of the content.
use ultramem.Prelude.{
  ℕ, Text, codes, same, ends_with, Unicode, to_lower, Bool, false, not, ◌||◌, List, Option, none,
  some, if◌then◌else◌,
}
use ultramem.Chunker.Plain.{chunk_text}
use ultramem.Chunker.Turns.{chunk_rounds, chunk_transcript, looks_like_conversation}
use ultramem.Chunker.Markdown.{chunk_markdown, looks_like_markdown}

unfoldable pub chunk_target : ℕ
chunk_target = 1200

unfoldable pub chunk_overlap : ℕ
chunk_overlap = 200

module _ (u : Unicode) where
  -- `file_path.map(…).unwrap_or(false)`.
  abbrev is_md : Option Text → Bool
  is_md none = false
  is_md (some p) =
      let path = to_lower u p in
      ends_with (codes ".md") path
      || ends_with (codes ".markdown") path
      || ends_with (codes ".mdx") path

  unfoldable pub chunk_doc : Text → Text → Option Text → Bool → List Text
  unfolding chunk_text chunk_rounds chunk_transcript chunk_markdown looks_like_conversation
      looks_like_markdown chunk_target chunk_overlap same ends_with
  chunk_doc content source file_path smart =
      if not smart
      then chunk_text u content chunk_target chunk_overlap
      else if same source (codes "chat") || looks_like_conversation u content
      then chunk_rounds u content chunk_target chunk_overlap
      else if same source (codes "meeting")
      then chunk_transcript u content chunk_target chunk_overlap
      else if is_md file_path || looks_like_markdown u content
      then chunk_markdown u content chunk_target chunk_overlap
      else chunk_text u content chunk_target chunk_overlap
