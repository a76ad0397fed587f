-- ===== src/Chunker/Bounds.antt =====
-- crates/ultramem-core/src/engine/chunker.rs: how long a chunk is.
use ultramem.Prelude.{
  ℕ, ◌+◌, ◌-◌, ◌≤◌, ltb, leb, leb→le, Text, Unicode, trim, lines, Bool, true, false, not, ◌&&◌,
  List, [], ◌∷◌, length, length-append, length-drop, is_empty, if◌then◌else◌, ◌≡◌, inl, inr, Option,
  arith, Bool-cases, blank,
}
use ultramem.Chunker.Plain.{char_tail, push_piece, pack_from, pack_pieces, bounded, chunk_text}
use ultramem.Chunker.Turns.{turns_from, rounds_from, round_chunks, chunk_rounds, chunk_transcript}
use ultramem.Chunker.Markdown.{sections_from, chunk_markdown}
use ultramem.Chunker.Doc.{chunk_doc, chunk_target, chunk_overlap}
use ultramem.Chunker.Within.{
  AllWithin, none_within, cons_within, uncons_within, flat_map_within, if_within, bounded-AllWithin,
  paragraph_pieces-AllWithin, sections_from-AllWithin,
}

length-char_tail-le : (s : Text) (n : ℕ) → length (char_tail s n) ≤ n
unfolding char_tail
length-char_tail-le s n = ground (arith, length-drop (length s - n) s)

length-push_piece-le :
    (cur piece : Text) → length (push_piece cur piece) ≤ length cur + length piece + 2
length-push_piece-le [] piece = omega arith
length-push_piece-le (c ∷ cur) piece = omega (arith, length-append (c ∷ cur) (10 ∷ 10 ∷ piece))

module _ (u : Unicode) where
  module _ (target overlap : ℕ) where
    tail_fits :
        (cur p : Text)
        → length p ≤ target
        → length (push_piece (char_tail cur overlap) p) ≤ target + overlap + 2
    tail_fits cur p k =
        omega
          (arith, length-push_piece-le (char_tail cur overlap) p, length-char_tail-le cur overlap)

    piece_fits :
        (cur p : Text)
        → length p ≤ target
        → not (is_empty cur) && ltb target (length cur + length p + 2) ≡ false
        → length (push_piece cur p) ≤ target + overlap + 2
    piece_fits [] p k e = omega arith
    piece_fits (c ∷ cur) p k e = ground (arith, length-push_piece-le (c ∷ cur) p)

    pack_from-AllWithin :
        (cur : Text) (ps : List Text)
        → length cur ≤ target + overlap + 2
        → AllWithin target ps
        → AllWithin (target + overlap + 2) (pack_from u target overlap cur ps)
    unfolding pack_from
    pack_from-AllWithin cur [] h k = if_within u (blank u cur) _ cur h
    pack_from-AllWithin cur (p ∷ ps) h k =
        let (k1, ks) = uncons_within k in
        elim (Bool-cases (not (is_empty cur) && ltb target (length cur + length p + 2))) [
          | inl e ↦
              rw (pack_from, e)
                (cons_within h (
                  pack_from-AllWithin (push_piece (char_tail cur overlap) p) ps (tail_fits cur p k1)
                    ks))
          | inr e ↦
              rw (pack_from, e)
                (pack_from-AllWithin (push_piece cur p) ps (piece_fits cur p k1 e) ks)
        ]

    pack_pieces-AllWithin :
        (ps : List Text)
        → AllWithin target ps
        → AllWithin (target + overlap + 2) (pack_pieces u ps target overlap)
    unfolding pack_pieces
    pack_pieces-AllWithin ps k = pack_from-AllWithin [] ps (omega arith) k

    chunk_text-AllWithin :
        (text : Text) → AllWithin (target + overlap + 2) (chunk_text u text target overlap)
    unfolding chunk_text
    chunk_text-AllWithin text =
        let t = trim u text in
        elim (Bool-cases (is_empty t)) [
          | inl e ↦ rw e none_within
          | inr e ↦ elim (Bool-cases (leb (length t) target)) [
            | inl f ↦
                rw (e, f) (cons_within (omega (arith, leb→le (length t) target f)) none_within)
            | inr f ↦ rw (e, f) (pack_pieces-AllWithin _ (paragraph_pieces-AllWithin u target t))
          ]
        ]

    round_chunks-AllWithin :
        (round : Text) → AllWithin (target + overlap + 2) (round_chunks u target overlap round)
    unfolding round_chunks
    round_chunks-AllWithin round =
        let r = trim u round in
        elim (Bool-cases (is_empty r)) [
          | inl e ↦ rw e none_within
          | inr e ↦ elim (Bool-cases (ltb target (length r))) [
            | inl f ↦ rw (e, f) (chunk_text-AllWithin r)
            | inr f ↦ rw (e, f) (cons_within (ground arith) none_within)
          ]
        ]

    chunk_rounds-AllWithin :
        (text : Text) → AllWithin (target + overlap + 2) (chunk_rounds u text target overlap)
    unfolding chunk_rounds
    chunk_rounds-AllWithin text =
        elim (Bool-cases (ltb (length (rounds_from u [] false (lines text))) 2)) [
          | inl e ↦ rw e (chunk_text-AllWithin text)
          | inr e ↦ rw e (flat_map_within (round_chunks u target overlap) round_chunks-AllWithin _)
        ]

    chunk_transcript-AllWithin :
        (text : Text) → AllWithin (target + overlap + 2) (chunk_transcript u text target overlap)
    unfolding chunk_transcript
    chunk_transcript-AllWithin text =
        let t = trim u text in
        elim (Bool-cases (is_empty t)) [
          | inl e ↦ rw e none_within
          | inr e ↦ elim (Bool-cases (ltb (length (turns_from u [] (lines t))) 2)) [
            | inl f ↦ rw (e, f) (chunk_text-AllWithin t)
            | inr f ↦
                rw (e, f)
                  (pack_pieces-AllWithin _ (
                    flat_map_within (λ turn. bounded u target (trim u turn))
                      (λ turn. bounded-AllWithin u target (trim u turn)) _))
          ]
        ]

    chunk_markdown-AllWithin :
        (text : Text) → AllWithin (target + overlap + 2) (chunk_markdown u text target overlap)
    unfolding chunk_markdown
    chunk_markdown-AllWithin text =
        let t = trim u text in
        elim (Bool-cases (is_empty t)) [
          | inl e ↦ rw e none_within
          | inr e ↦ elim (Bool-cases (is_empty (sections_from u target [] [] (lines t)))) [
            | inl f ↦ rw (e, f) (chunk_text-AllWithin t)
            | inr f ↦
                rw (e, f)
                  (pack_pieces-AllWithin _ (sections_from-AllWithin u target [] [] (lines t)))
          ]
        ]

  if_AllWithin :
      (n : ℕ) (b : Bool) (xs ys : List Text)
      → AllWithin n xs
      → AllWithin n ys
      → AllWithin n (if b then xs else ys)
  if_AllWithin n true xs ys h k = h
  if_AllWithin n false xs ys h k = k

  -- Whatever the strategy, no chunk of a document is longer than 1402 characters, the target and
  -- the overlap with the blank line between them.
  pub chunk_doc-AllWithin :
      (content source : Text) (file_path : Option Text) (smart : Bool)
      → AllWithin 1402 (chunk_doc u content source file_path smart)
  unfolding chunk_doc chunk_target chunk_overlap
  chunk_doc-AllWithin content source file_path smart =
      let plain = chunk_text-AllWithin 1200 200 content in
      if_AllWithin 1402 _ _ _ plain (
        if_AllWithin 1402 _ _ _ (chunk_rounds-AllWithin 1200 200 content) (
          if_AllWithin 1402 _ _ _ (chunk_transcript-AllWithin 1200 200 content)
            (if_AllWithin 1402 _ _ _ (chunk_markdown-AllWithin 1200 200 content) plain)))
