-- ===== src/Chunker/Cover.antt =====
-- crates/ultramem-core/src/engine/chunker.rs: the chunks of a text hold the whole text, white space
-- aside.
use ultramem.Prelude.{
  ℕ, ◌+◌, ◌<◌, ltb, leb, Text, Unicode, trim, split_inclusive, Bool, true, false, not, ◌&&◌, List,
  [], ◌∷◌, ◌++◌, map, length, is_empty, flatten, if◌then◌else◌, ◌≡◌, refl, sym, ap, ap₂, ◌∙◌, inl,
  inr, arith, Bool-cases, append_assoc, append-nil, chunks, split_paragraphs, blank, solid,
  solid-append, solid-trim, solid-blank, flatten-chunks, flatten-split_inclusive, flatten-filter,
  solid-flatten-map, solid-flatten-flat_map, solid-flatten-split_paragraphs, solid-flatten-append,
}
use ultramem.Chunker.Plain.{ends_sentence, split_sentences, split_long, bounded, paragraph_pieces}

module _ (u : Unicode) where
  pub solid_end :
      (cur : Text) → solid u (flatten (if blank u cur then [] else cur ∷ [])) ≡ solid u cur
  unfolding flatten solid
  solid_end cur = elim (Bool-cases (blank u cur)) [
    | inl e ↦ rw e (sym (solid-blank u cur e))
    | inr e ↦ rw (e, append-nil)
  ]

  solid_trimmed_end :
      (cur : Text) → solid u (flatten (if blank u cur then [] else trim u cur ∷ [])) ≡ solid u cur
  unfolding flatten solid
  solid_trimmed_end cur = elim (Bool-cases (blank u cur)) [
    | inl e ↦ rw e (sym (solid-blank u cur e))
    | inr e ↦ rw (e, append-nil) (solid-trim u cur)
  ]

  solid_one : (cur : Text) → solid u (flatten (trim u cur ∷ [])) ≡ solid u cur
  unfolding flatten
  solid_one cur = rw append-nil (solid-trim u cur)

  -- A step of the loop that keeps the sentence in the accumulator.
  solid_short :
      (full : Bool) (cur s t : Text) (rest : List Text)
      → solid u (flatten rest) ≡ solid u ((if full then [] else cur) ++ s) ++ t
      → solid u (flatten ((if full then trim u cur ∷ [] else []) ++ rest))
        ≡ solid u cur ++ (solid u s ++ t)
  solid_short true cur s t rest h =
      solid-flatten-append u (trim u cur ∷ []) rest ∙ ap₂ ◌++◌ (solid_one cur) h
  solid_short false cur s t rest h =
      h ∙ (ap (λ x. x ++ t) (solid-append u cur s) ∙ append_assoc (solid u cur) (solid u s) t)

  nothing_kept :
      (target : ℕ) (cur s : Text)
      → ltb target (length s) ≡ true
      → not (is_empty cur) && ltb target (length cur + length s) ≡ false
      → cur ≡ []
  nothing_kept target [] s h k = refl
  nothing_kept target (c ∷ cur) s h k = ground arith

  module _ (target : ℕ) (positive : 0 < target) where
    solid-windows : (s : Text) → solid u (flatten (map (trim u) (chunks target s))) ≡ solid u s
    solid-windows s =
        solid-flatten-map u (trim u) (solid-trim u) (chunks target s)
        ∙ ap (solid u) (flatten-chunks target s positive)

    -- A step that pushes the windows of an overlong sentence.
    solid_overlong :
        (full : Bool) (cur s t : Text) (rest : List Text)
        → (full ≡ false → cur ≡ [])
        → solid u (flatten rest) ≡ solid u (if full then [] else cur) ++ t
        → solid u (
            flatten
              ((if full then trim u cur ∷ [] else []) ++ (map (trim u) (chunks target s) ++ rest)))
          ≡ solid u cur ++ (solid u s ++ t)
    unfolding solid
    solid_overlong true cur s t rest k h =
        solid-flatten-append u (trim u cur ∷ []) _
        ∙ ap₂ ◌++◌ (solid_one cur) (
            solid-flatten-append u (map (trim u) (chunks target s)) rest
            ∙ ap₂ ◌++◌ (solid-windows s) h)
    solid_overlong false [] s t rest k h =
        solid-flatten-append u (map (trim u) (chunks target s)) rest ∙ ap₂ ◌++◌ (solid-windows s) h
    solid_overlong false (c ∷ cur) s t rest k h = let e = k refl in cc

    solid-split_sentences :
        (cur : Text) (ss : List Text)
        → solid u (flatten (split_sentences u target cur ss)) ≡ solid u cur ++ solid u (flatten ss)
    unfolding flatten split_sentences solid
    solid-split_sentences cur [] = rw append-nil (solid_trimmed_end cur)
    solid-split_sentences cur (s ∷ ss) =
        let full = not (is_empty cur) && ltb target (length cur + length s) in
        let kept = if full then [] else cur in
        elim (Bool-cases (ltb target (length s))) [
          | inl e ↦
              rw (flatten, e)
                (solid_overlong full cur s (solid u (flatten ss)) _ (nothing_kept target cur s e)
                    (solid-split_sentences kept ss)
                  ∙ ap (◌++◌ (solid u cur)) (sym (solid-append u s (flatten ss))))
          | inr e ↦
              rw (flatten, e)
                (solid_short full cur s (solid u (flatten ss)) _
                    (solid-split_sentences (kept ++ s) ss)
                  ∙ ap (◌++◌ (solid u cur)) (sym (solid-append u s (flatten ss))))
        ]

    -- For a target above zero, the pieces of split_long are its text, white space aside: the windows
    -- of an overlong sentence reach its end.
    pub solid-split_long : (p : Text) → solid u (flatten (split_long u p target)) ≡ solid u p
    unfolding split_long solid
    solid-split_long p =
        ap (solid u) (flatten-filter _)
        ∙ (solid-split_sentences [] (split_inclusive ends_sentence p)
            ∙ ap (solid u) (flatten-split_inclusive ends_sentence p))

    pub solid-bounded : (p : Text) → solid u (flatten (bounded u target p)) ≡ solid u p
    unfolding flatten
    solid-bounded p = elim (Bool-cases (leb (length p) target)) [
      | inl e ↦ rw (e, append-nil)
      | inr e ↦ rw e (solid-split_long p)
    ]

    pub solid-paragraph_pieces :
        (t : Text) → solid u (flatten (paragraph_pieces u target t)) ≡ solid u t
    unfolding paragraph_pieces
    solid-paragraph_pieces t =
        solid-flatten-flat_map u (bounded u target) solid-bounded _
        ∙ (ap (solid u) (flatten-filter (map (trim u) (split_paragraphs t)))
            ∙ (solid-flatten-map u (trim u) (solid-trim u) (split_paragraphs t)
                ∙ solid-flatten-split_paragraphs u t))
