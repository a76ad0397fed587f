-- ===== src/Chunker/Markdown.antt =====
-- crates/ultramem-core/src/engine/chunker.rs: looks_like_markdown, chunk_markdown.
use ultramem.Prelude.{
  ℕ, ◌==◌, ltb, leb, Text, codes, starts_with, lines, join, Unicode, trim, trim_start, Bool, false,
  ◌&&◌, List, [], ◌∷◌, ◌++◌, map, filter, length, get_elem?, is_empty, Option, none, some,
  if◌then◌else◌, leading,
}
use ultramem.Chunker.Plain.{split_long, bounded, pack_pieces, chunk_text}
use ultramem.Chunker.Turns.{starts_with_any}

unfoldable pub heading_level : Text → Option ℕ
unfolding leading
heading_level line =
    let level = leading b'#' line in
    if ltb 0 level && leb level 6 && is_space (get_elem? line level) then some level else none
  where
    is_space : Option ℕ → Bool
    is_space none = false
    is_space (some c) = c == 32

-- The trail of headings that a section stands under, each with its level.
abbrev pub Trail : Type 0
Trail = List (ℕ × Text)

-- `retain` of the lower levels, then `push`.
abbrev pub enter : Trail → ℕ → Text → Trail
enter trail level t = filter (λ h. ltb h.0 level) trail ++ (level, t) ∷ []

module _ (u : Unicode) where
  -- A section with its trail in front, joined by " ▸ ".
  abbrev section : Trail → Text → Text
  section trail b =
      let crumb = join (codes " ▸ ") (map (λ h. h.1) trail) in
      if is_empty crumb then b else crumb ++ (10 ∷ b)

  -- The closure `flush`: what it pushes.
  unfoldable pub flush : ℕ → Trail → Text → List Text
  unfolding split_long join
  flush target trail body =
      let b = trim u body in if is_empty b then [] else bounded u target (section trail b)

  -- The loop over the lines, with `trail` and `body` its variables.
  unfoldable pub sections_from : ℕ → Trail → Text → List Text → List Text
  unfolding flush heading_level
  sections_from target trail body [] = flush target trail body
  sections_from target trail body (line ∷ rest) = elim (heading_level (trim_start u line)) [
    | some level ↦
        flush target trail body
        ++ sections_from target (enter trail level (trim_start u line)) [] rest
    | none ↦ sections_from target trail (body ++ (line ++ (10 ∷ []))) rest
  ]

  unfoldable pub chunk_markdown : Text → ℕ → ℕ → List Text
  unfolding sections_from pack_pieces chunk_text lines
  chunk_markdown text target overlap =
      let t = trim u text in
      let pieces = sections_from target [] [] (lines t) in
      if is_empty t
      then []
      else if is_empty pieces
      then chunk_text u t target overlap
      else pack_pieces u pieces target overlap

  unfoldable pub looks_like_markdown : Text → Bool
  unfolding lines starts_with
  looks_like_markdown text = leb 2 (
      length (
        filter
          (λ l. starts_with_any (codes "# " ∷ codes "## " ∷ codes "### " ∷ []) (trim_start u l))
          (lines text)))
