-- ===== src/Chunker/Rejoin.antt =====
-- crates/ultramem-core/src/engine/chunker.rs: the overlaps taken off, the chunks of a text are the
-- text, white space aside.
use ultramem.Prelude.{
  ℕ, zero, suc, ◌+◌, ◌≤◌, ◌<◌, ltb, leb, Text, Unicode, trim, lines, Bool, true, false, not, ◌&&◌,
  List, [], ◌∷◌, ◌++◌, flat_map, length, length-append, drop, is_empty, flatten, ◌≡◌, refl, sym, ap,
  ◌∙◌, inl, inr, arith, Bool-cases, append_assoc, append-nil, blank, solid, solid-append,
  solid-trim, solid-blank, solid_paragraph, solid-flatten-flat_map, solid-flatten-lines, take,
  take-append-drop,
}
use ultramem.Chunker.Plain.{
  char_tail, push_piece, pack_from, pack_pieces, bounded, paragraph_pieces, chunk_text,
}
use ultramem.Chunker.Turns.{is_speaker_line, turns_from, chunk_transcript}
use ultramem.Chunker.Cover.{solid_end, solid-bounded, solid-paragraph_pieces}

-- The chunks put together: of the first one all after `k` characters, of a later one all after the
-- overlap, the last characters of the chunk before it.
unfoldable pub uncut : ℕ → ℕ → List Text → Text
unfolding char_tail
uncut overlap k [] = []
uncut overlap k (c ∷ cs) = drop k c ++ uncut overlap (length (char_tail c overlap)) cs

length-push_piece : (cur piece : Text) → length cur ≤ length (push_piece cur piece)
length-push_piece [] piece = omega arith
length-push_piece (c ∷ cur) piece = omega (arith, length-append (c ∷ cur) (10 ∷ 10 ∷ piece))

drop-append : (k : ℕ) (a b : Text) → k ≤ length a → drop k (a ++ b) ≡ drop k a ++ b
drop-append zero a b h = refl
drop-append (suc k) [] b h = absurd (omega arith)
drop-append (suc k) (c ∷ a) b h = drop-append k a b (omega arith)

drop-length : (a b : Text) → drop (length a) (a ++ b) ≡ b
drop-length [] b = refl
drop-length (c ∷ a) b = drop-length a b

nothing_after : (a b : Text) → a ++ b ≡ [] → b ≡ []
nothing_after [] b h = h
nothing_after (c ∷ a) b h = cc

module _ (u : Unicode) where
  solid-drop-push_piece :
      (k : ℕ) (cur piece : Text)
      → k ≤ length cur
      → solid u (drop k (push_piece cur piece)) ≡ solid u (drop k cur) ++ solid u piece
  unfolding solid
  solid-drop-push_piece zero [] piece h = refl
  solid-drop-push_piece (suc k) [] piece h = absurd (omega arith)
  solid-drop-push_piece k (c ∷ cur) piece h =
      ap (solid u) (drop-append k (c ∷ cur) (10 ∷ 10 ∷ piece) h)
      ∙ (solid-append u (drop k (c ∷ cur)) (10 ∷ 10 ∷ piece)
          ∙ ap (◌++◌ (solid u (drop k (c ∷ cur)))) (solid_paragraph u piece))

  solid-drop-blank : (k : ℕ) (s : Text) → blank u s ≡ true → solid u (drop k s) ≡ []
  solid-drop-blank k s h = nothing_after (solid u (take k s)) (solid u (drop k s)) (
      sym (solid-append u (take k s) (drop k s))
      ∙ (ap (solid u) (take-append-drop k s) ∙ solid-blank u s h))

  solid-drop_full : (s : Text) → solid u (drop (length s) s) ≡ []
  unfolding solid
  solid-drop_full [] = refl
  solid-drop_full (c ∷ s) = solid-drop_full s

  module _ (target overlap : ℕ) where
    solid-pack_from :
        (k : ℕ) (cur : Text) (pieces : List Text)
        → k ≤ length cur
        → solid u (uncut overlap k (pack_from u target overlap cur pieces))
          ≡ solid u (drop k cur) ++ solid u (flatten pieces)
    unfolding uncut pack_from flatten solid
    solid-pack_from k cur [] h = elim (Bool-cases (blank u cur)) [
      | inl e ↦ rw e (sym (ap (λ x. x ++ []) (solid-drop-blank k cur e)))
      | inr e ↦
          rw e (ap (solid u) (append-nil (drop k cur)) ∙ sym (append-nil (solid u (drop k cur))))
    ]
    solid-pack_from k cur (p ∷ ps) h =
        let tail = char_tail cur overlap in
        elim (Bool-cases (not (is_empty cur) && ltb target (length cur + length p + 2))) [
          | inl e ↦
              rw (uncut, e)
                (solid-append u (drop k cur) _
                  ∙ ap (◌++◌ (solid u (drop k cur))) (
                      solid-pack_from (length tail) (push_piece tail p) ps
                        (length-push_piece tail p)
                      ∙ (ap (λ x. x ++ solid u (flatten ps))
                            (solid-drop-push_piece (length tail) tail p (omega arith)
                              ∙ ap (λ x. x ++ solid u p) (solid-drop_full tail))
                          ∙ sym (solid-append u p (flatten ps)))))
          | inr e ↦
              rw (uncut, e)
                (solid-pack_from k (push_piece cur p) ps (omega (arith, length-push_piece cur p))
                  ∙ (ap (λ x. x ++ solid u (flatten ps)) (solid-drop-push_piece k cur p h)
                      ∙ (append_assoc (solid u (drop k cur)) (solid u p) (solid u (flatten ps))
                          ∙ ap (◌++◌ (solid u (drop k cur)))
                              (sym (solid-append u p (flatten ps))))))
        ]

  module _ (target overlap : ℕ) (positive : 0 < target) where
    solid-pack_pieces :
        (pieces : List Text)
        → solid u (uncut overlap 0 (pack_pieces u pieces target overlap)) ≡ solid u (flatten pieces)
    unfolding pack_pieces solid
    solid-pack_pieces pieces = solid-pack_from target overlap 0 [] pieces (omega arith)

    solid_lone : (t : Text) → solid u (uncut overlap 0 (t ∷ [])) ≡ solid u t
    unfolding uncut
    solid_lone t = ap (solid u) (append-nil t)

    -- For a target above zero, the chunks of a text with the overlaps taken off are the text, white
    -- space aside: nothing of it is lost, made up or moved.
    pub chunk_text-solid :
        (text : Text) → solid u (uncut overlap 0 (chunk_text u text target overlap)) ≡ solid u text
    unfolding chunk_text uncut solid
    chunk_text-solid text =
        let t = trim u text in
        elim (Bool-cases (is_empty t)) [
          | inl e ↦ rw (uncut, e) (sym (solid-blank u text e))
          | inr e ↦ elim (Bool-cases (leb (length t) target)) [
            | inl f ↦ rw (uncut, e, f) (solid_lone t ∙ solid-trim u text)
            | inr f ↦
                rw (uncut, e, f)
                  (solid-pack_pieces (paragraph_pieces u target t)
                    ∙ (solid-paragraph_pieces u target positive t ∙ solid-trim u text))
          ]
        ]

    solid-line : (line : Text) → solid u (line ++ (10 ∷ [])) ≡ solid u line
    unfolding solid
    solid-line line =
        solid-append u line (10 ∷ []) ∙ (rw u.newline_is_whitespace (append-nil (solid u line)))

    -- A line that opens a turn or goes on with one.
    solid_turn :
        (opens : Bool) (cur line t : Text) (turns : Text → List Text)
        → ((x : Text) → solid u (flatten (turns x)) ≡ solid u x ++ t)
        → solid u (
            flatten (elim opens as (λ _. List Text) [
              | true ↦ cur ∷ turns (line ++ (10 ∷ []))
              | false ↦ turns (cur ++ (line ++ (10 ∷ [])))
            ]))
          ≡ solid u cur ++ (solid u line ++ t)
    unfolding flatten
    solid_turn true cur line t turns h =
        solid-append u cur _
        ∙ ap (◌++◌ (solid u cur)) (h (line ++ (10 ∷ [])) ∙ ap (λ x. x ++ t) (solid-line line))
    solid_turn false cur line t turns h =
        h (cur ++ (line ++ (10 ∷ [])))
        ∙ (ap (λ x. x ++ t)
              (solid-append u cur (line ++ (10 ∷ [])) ∙ ap (◌++◌ (solid u cur)) (solid-line line))
            ∙ append_assoc (solid u cur) (solid u line) t)

    pub solid-turns_from :
        (cur : Text) (ls : List Text)
        → solid u (flatten (turns_from u cur ls)) ≡ solid u cur ++ solid u (flatten ls)
    unfolding turns_from solid flatten
    solid-turns_from cur [] = solid_end u cur ∙ sym (append-nil (solid u cur))
    solid-turns_from cur (l ∷ ls) =
        solid_turn (is_speaker_line u l && not (blank u cur)) cur l (solid u (flatten ls))
          (λ x. turns_from u x ls) (λ x. solid-turns_from x ls)
        ∙ ap (◌++◌ (solid u cur)) (sym (solid-append u l (flatten ls)))

    -- For a target above zero, the chunks of a transcript with the overlaps taken off are the
    -- transcript, white space aside.
    pub chunk_transcript-solid :
        (text : Text)
        → solid u (uncut overlap 0 (chunk_transcript u text target overlap)) ≡ solid u text
    unfolding chunk_transcript uncut solid
    chunk_transcript-solid text =
        let t = trim u text in
        let turns = turns_from u [] (lines t) in
        elim (Bool-cases (is_empty t)) [
          | inl e ↦ rw (uncut, e) (sym (solid-blank u text e))
          | inr e ↦ elim (Bool-cases (ltb (length turns) 2)) [
            | inl f ↦ rw (e, f) (chunk_text-solid t ∙ solid-trim u text)
            | inr f ↦
                rw (e, f)
                  (solid-pack_pieces (flat_map (λ turn. bounded u target (trim u turn)) turns)
                    ∙ (solid-flatten-flat_map u (λ turn. bounded u target (trim u turn))
                          (λ turn.
                            solid-bounded u target positive (trim u turn) ∙ solid-trim u turn)
                          turns
                        ∙ (solid-turns_from [] (lines t)
                            ∙ (solid-flatten-lines u t ∙ solid-trim u text))))
          ]
        ]
