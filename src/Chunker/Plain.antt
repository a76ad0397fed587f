-- ===== src/Chunker/Plain.antt =====
-- crates/ultramem-core/src/engine/chunker.rs: char_tail, split_long, pack_pieces, chunk_text.
-- The target is above zero, as at every call: `chunks` of the standard library panics at zero.
use ultramem.Prelude.{
  ℕ, ◌+◌, ◌-◌, ◌==◌, ltb, leb, Text, split_inclusive, Unicode, trim, Bool, true, false, not, ◌&&◌,
  ◌||◌, List, [], ◌∷◌, ◌++◌, map, flat_map, filter, length, drop, is_empty, if◌then◌else◌, chunks,
  split_paragraphs, blank,
}

unfoldable pub char_tail : Text → ℕ → Text
char_tail s n = let count = length s in if leb count n then s else drop (count - n) s

-- A piece put into a chunk.
abbrev pub push_piece : Text → Text → Text
push_piece [] piece = piece
push_piece (c ∷ cur) piece = c ∷ cur ++ (10 ∷ 10 ∷ piece)

-- The separators of `split_long`.
abbrev pub ends_sentence : ℕ → Bool
ends_sentence c = (c == b'.') || (c == b'!') || (c == b'?') || (c == 10)

module _ (u : Unicode) where
  -- The loop of `split_long`; `cur` is its accumulator, the result what it pushes from there on.
  unfoldable pub split_sentences : ℕ → Text → List Text → List Text
  unfolding chunks
  split_sentences target cur [] = if blank u cur then [] else trim u cur ∷ []
  split_sentences target cur (sentence ∷ sentences) =
      let s_len = length sentence in
      let full = not (is_empty cur) && ltb target (length cur + s_len) in
      let pushed = if full then trim u cur ∷ [] else [] in
      let kept = if full then [] else cur in
      elim (ltb target s_len) [
        | true ↦
            pushed
            ++ (map (trim u) (chunks target sentence) ++ split_sentences target kept sentences)
        | false ↦ pushed ++ split_sentences target (kept ++ sentence) sentences
      ]

  unfoldable pub split_long : Text → ℕ → List Text
  unfolding split_sentences split_inclusive
  split_long p target =
      filter (λ s. not (is_empty s)) (split_sentences target [] (split_inclusive ends_sentence p))

  -- The loop of `pack_pieces`, from a chunk `cur` that is being filled.
  unfoldable pub pack_from : ℕ → ℕ → Text → List Text → List Text
  unfolding char_tail
  pack_from target overlap cur [] = if blank u cur then [] else cur ∷ []
  pack_from target overlap cur (piece ∷ pieces) =
      elim (not (is_empty cur) && ltb target (length cur + length piece + 2)) [
        | true ↦ cur ∷ pack_from target overlap (push_piece (char_tail cur overlap) piece) pieces
        | false ↦ pack_from target overlap (push_piece cur piece) pieces
      ]

  unfoldable pub pack_pieces : List Text → ℕ → ℕ → List Text
  unfolding pack_from
  pack_pieces pieces target overlap = pack_from target overlap [] pieces

  -- A piece that is short enough is kept, a longer one is split.
  abbrev pub bounded : ℕ → Text → List Text
  bounded target p = if leb (length p) target then p ∷ [] else split_long p target

  unfoldable pub paragraph_pieces : ℕ → Text → List Text
  unfolding split_long split_paragraphs flat_map
  paragraph_pieces target text =
      flat_map (bounded target)
        (filter (λ p. not (is_empty p)) (map (trim u) (split_paragraphs text)))

  unfoldable pub chunk_text : Text → ℕ → ℕ → List Text
  unfolding paragraph_pieces pack_pieces
  chunk_text text target overlap =
      let t = trim u text in
      if is_empty t
      then []
      else if leb (length t) target
      then t ∷ []
      else pack_pieces (paragraph_pieces target t) target overlap
