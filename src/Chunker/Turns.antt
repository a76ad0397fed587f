-- ===== src/Chunker/Turns.antt =====
-- crates/ultramem-core/src/engine/chunker.rs: looks_like_conversation, chunk_rounds,
-- is_speaker_line, chunk_transcript.
use ultramem.Prelude.{
  ℕ, ◌==◌, ltb, leb, Text, codes, starts_with, split_once, strip_prefix, lines, is_ascii_digit,
  Unicode, trim, trim_start, to_lower, Bool, true, false, not, ◌&&◌, ◌||◌, List, [], ◌∷◌, ◌++◌,
  flat_map, filter, any, length, head?, is_empty, Option, none, some, if◌then◌else◌,
  split_whitespace, blank,
}
use ultramem.Chunker.Plain.{split_long, bounded, pack_pieces, chunk_text}

-- The tests `t.starts_with(p)` for several `p`, which the source joins by `||`.
abbrev pub starts_with_any : List Text → Text → Bool
starts_with_any ps t = any (λ p. starts_with p t) ps

module _ (u : Unicode) where
  abbrev pub lowered : Text → Text
  lowered line = to_lower u (trim_start u line)

  unfoldable pub looks_like_conversation : Text → Bool
  unfolding lines starts_with
  looks_like_conversation text = leb 2 (
      length (
        filter
          (λ l.
            starts_with_any (codes "user:" ∷ codes "assistant:" ∷ codes "human:" ∷ codes "ai:" ∷ [])
              (lowered l))
          (lines text)))

  abbrev pub is_user_line : Text → Bool
  is_user_line line = starts_with_any (codes "user:" ∷ codes "human:" ∷ []) (lowered line)

  -- The first loop of `chunk_rounds`, with `cur` and `started` its variables.
  unfoldable pub rounds_from : Text → Bool → List Text → List Text
  unfolding starts_with
  rounds_from cur started [] = if blank u cur then [] else cur ∷ []
  rounds_from cur started (line ∷ rest) = elim (is_user_line line && started && not (blank u cur)) [
    | true ↦ cur ∷ rounds_from (line ++ (10 ∷ [])) true rest
    | false ↦ rounds_from (cur ++ (line ++ (10 ∷ []))) true rest
  ]

  -- One turn of the second loop.
  unfoldable pub round_chunks : ℕ → ℕ → Text → List Text
  unfolding chunk_text
  round_chunks target overlap round =
      let r = trim u round in
      if is_empty r
      then []
      else if ltb target (length r)
      then chunk_text u r target overlap
      else r ∷ []

  unfoldable pub chunk_rounds : Text → ℕ → ℕ → List Text
  unfolding rounds_from round_chunks chunk_text lines flat_map
  chunk_rounds text target overlap =
      let rounds = rounds_from [] false (lines text) in
      if ltb (length rounds) 2
      then chunk_text u text target overlap
      else flat_map (round_chunks target overlap) rounds

  -- The label of a speaker's line, what stands before the colon.
  abbrev after_stamp : Text → Text
  after_stamp l = elim (strip_prefix (codes "[") l) [
    | none ↦ l
    | some r ↦ elim (split_once b']' r) [ none ↦ l | some (stamp, rest) ↦ trim_start u rest ]
  ]

  abbrev opens_label : Option ℕ → Bool
  opens_label none = false
  opens_label (some c) = u.is_uppercase c || is_ascii_digit c

  abbrev is_label : Text → Bool
  is_label label =
      not (is_empty label)
      && leb (length label) 32
      && opens_label (head? label)
      && leb (length (split_whitespace u label)) 3
      && not (any (λ c. (c == b'.') || (c == b'!') || (c == b'?') || (c == b',')) label)

  unfoldable pub is_speaker_line : Text → Bool
  unfolding split_once strip_prefix split_whitespace is_ascii_digit
  is_speaker_line line = elim (split_once b':' (after_stamp (trim_start u line))) [
    | none ↦ false
    | some (label, rest) ↦ is_label (trim u label)
  ]

  -- The loop of `chunk_transcript` over the lines.
  unfoldable pub turns_from : Text → List Text → List Text
  unfolding is_speaker_line
  turns_from cur [] = if blank u cur then [] else cur ∷ []
  turns_from cur (line ∷ rest) = elim (is_speaker_line line && not (blank u cur)) [
    | true ↦ cur ∷ turns_from (line ++ (10 ∷ [])) rest
    | false ↦ turns_from (cur ++ (line ++ (10 ∷ []))) rest
  ]

  unfoldable pub chunk_transcript : Text → ℕ → ℕ → List Text
  unfolding turns_from chunk_text pack_pieces split_long lines flat_map
  chunk_transcript text target overlap =
      let t = trim u text in
      let turns = turns_from [] (lines t) in
      if is_empty t
      then []
      else if ltb (length turns) 2
      then chunk_text u t target overlap
      else pack_pieces u (flat_map (λ turn. bounded u target (trim u turn)) turns) target overlap
