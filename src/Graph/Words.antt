-- ===== src/Graph/Words.antt =====
-- crates/ultramem-core/src/engine/graph.rs: the keys of normalize_key are the words of the text.
use ultramem.Prelude.{
  ℕ, codes, All, is_ascii_digit, Text, is_ascii_alphanumeric, ascii_lowercase, trim, trim_matches,
  trim_start_matches, trim_end_matches, Unicode, Bool, true, false, ◌&&◌, List, [], ◌∷◌, ◌++◌,
  append_assoc, append-nil, is_empty, join, ◌≡◌, refl, sym, ap, ◌∙◌, arith, inl, inr, Bool-cases,
  true-false, if◌then◌else◌,
}
use ultramem.Graph.{normalize_key}
use ultramem.Graph.Normal.{is_underscore, emit, key_chars-emit, normalize_key_idem}

abbrev add_word : Text → List Text → List Text
add_word [] ws = ws
add_word (c ∷ w) ws = (c ∷ w) ∷ ws

-- The longest runs of ASCII letters and digits, in lower case; `w` is the run read so far.
unfoldable pub words_after : Text → Text → List Text
words_after w [] = add_word w []
words_after w (c ∷ s) =
    if is_ascii_alphanumeric c
    then words_after (w ++ ascii_lowercase c ∷ []) s
    else add_word w (words_after [] s)

abbrev pub words : Text → List Text
words = words_after []

abbrev IsText : Text → Type 0
IsText w = is_empty w ≡ false

words_after-IsText : (w s : Text) → All IsText (words_after w s)
unfolding words_after
words_after-IsText [] [] = tt
words_after-IsText (d ∷ w) [] = (refl, tt)
words_after-IsText w (c ∷ s) = elim (Bool-cases (is_ascii_alphanumeric c)) [
  | inl e ↦ rw e (words_after-IsText (w ++ ascii_lowercase c ∷ []) s)
  | inr e ↦ rw e (add w _ (words_after-IsText [] s))
]
  where
    add : (w : Text) (ws : List Text) → All IsText ws → All IsText (add_word w ws)
    add [] ws h = h
    add (d ∷ w) ws h = (refl, h)

trim_us : Text → Text
trim_us = trim_end_matches is_underscore

trim_us-letter : (c : ℕ) (s : Text) → is_underscore c ≡ false → trim_us (c ∷ s) ≡ c ∷ trim_us s
unfolding trim_us trim_end_matches
trim_us-letter c s h = ground (arith, h)

letter_not_underscore :
    (c : ℕ) → is_ascii_alphanumeric c ≡ true → is_underscore (ascii_lowercase c) ≡ false
unfolding is_ascii_alphanumeric ascii_lowercase is_ascii_digit
letter_not_underscore c h = ground arith

-- A gap behind a word joins it to the words that follow, if any.
gap :
    (c : ℕ) (w y : Text) (ws : List Text)
    → All IsText ws
    → trim_us y ≡ join (codes "_") ws
    → (c ∷ w) ++ trim_us (b'_' ∷ y) ≡ join (codes "_") ((c ∷ w) ∷ ws)
unfolding trim_us trim_end_matches join
gap c w y [] h e = rw e (append-nil (c ∷ w))
gap c w y ([] ∷ ws) (h, hs) e = cc
gap c w y ((d ∷ v) ∷ []) h e = rw e refl
gap c w y ((d ∷ v) ∷ x ∷ ws) h e = rw e refl

emit-words :
    (s : Text)
    → (trim_us (emit true s) ≡ join (codes "_") (words s))
      × ((c : ℕ) (w : Text)
          → (c ∷ w) ++ trim_us (emit false s) ≡ join (codes "_") (words_after (c ∷ w) s))
unfolding emit words_after trim_us trim_end_matches join
emit-words [] = (refl, λ c w. append-nil (c ∷ w))
emit-words (d ∷ s) = elim (Bool-cases (is_ascii_alphanumeric d)) [
  | inl e ↦
      let l = ascii_lowercase d in
      let letter = trim_us-letter l (emit false s) (letter_not_underscore d e) in
      let (first, later) = emit-words s in
      rw e (
        letter ∙ later l [],
        λ c w.
            ap (◌++◌ (c ∷ w)) letter
            ∙ sym (append_assoc (c ∷ w) (l ∷ []) (trim_us (emit false s)))
            ∙ later c (w ++ l ∷ []),
      )
  | inr e ↦
      let (first, later) = emit-words s in
      rw e (first, λ c w. gap c w (emit true s) (words s) (words_after-IsText [] s) first)
]

-- Without the gap in front, the rest is put out as behind a gap.
trim_start_letter : (s : Text) → trim_start_matches is_underscore (emit true s) ≡ emit true s
unfolding emit trim_start_matches
trim_start_letter [] = refl
trim_start_letter (c ∷ s) = elim (Bool-cases (is_ascii_alphanumeric c)) [
  | inl e ↦ rw (e, letter_not_underscore c e) refl
  | inr e ↦ rw e (trim_start_letter s)
]

trim_start_gap : (s : Text) → trim_start_matches is_underscore (emit false s) ≡ emit true s
unfolding emit trim_start_matches
trim_start_gap [] = refl
trim_start_gap (c ∷ s) = elim (Bool-cases (is_ascii_alphanumeric c)) [
  | inl e ↦ rw (e, letter_not_underscore c e) refl
  | inr e ↦ rw e (trim_start_letter s)
]

module _ (p : ℕ → Bool) (apart : (c : ℕ) → p c ≡ true → is_ascii_alphanumeric c ≡ false) where
  words-trim_start : (s : Text) → words (trim_start_matches p s) ≡ words s
  unfolding trim_start_matches words_after
  words-trim_start [] = refl
  words-trim_start (c ∷ s) = elim (Bool-cases (p c)) [
    | inl e ↦ rw (e, apart c e) (words-trim_start s)
    | inr e ↦ rw e refl
  ]

  same_tail :
      (w : Text) (c : ℕ) (r s : Text)
      → ((v : Text) → words_after v r ≡ words_after v s)
      → words_after w (c ∷ r) ≡ words_after w (c ∷ s)
  unfolding words_after
  same_tail w c r s h = elim (Bool-cases (is_ascii_alphanumeric c)) [
    | inl e ↦ rw e (h (w ++ ascii_lowercase c ∷ []))
    | inr e ↦ rw e (ap (add_word w) (h []))
  ]

  cut :
      (w : Text) (c : ℕ) (r s : Text)
      → ((v : Text) → words_after v r ≡ words_after v s)
      → words_after w (if is_empty r && p c then [] else c ∷ r) ≡ words_after w (c ∷ s)
  unfolding words_after
  cut w c (d ∷ r) s h = same_tail w c (d ∷ r) s h
  cut w c [] s h = elim (Bool-cases (p c)) [
    | inl e ↦ rw (e, apart c e) (ap (add_word w) (h []))
    | inr e ↦ rw e (same_tail w c [] s h)
  ]

  words_after-trim_end : (s w : Text) → words_after w (trim_end_matches p s) ≡ words_after w s
  unfolding trim_end_matches
  words_after-trim_end [] w = refl
  words_after-trim_end (c ∷ s) w = cut w c (trim_end_matches p s) s (words_after-trim_end s)

module _ (u : Unicode) where
  whitespace_apart : (c : ℕ) → u.is_whitespace c ≡ true → is_ascii_alphanumeric c ≡ false
  whitespace_apart c h = elim (Bool-cases (is_ascii_alphanumeric c)) [
    | inl e ↦ absurd (true-false (u.ascii_is_alphanumeric c e) (u.whitespace_not_alphanumeric c h))
    | inr e ↦ e
  ]

  words-trim : (s : Text) → words (trim u s) ≡ words s
  unfolding trim_matches
  words-trim s =
      words_after-trim_end u.is_whitespace whitespace_apart (trim_start_matches u.is_whitespace s)
        []
      ∙ words-trim_start u.is_whitespace whitespace_apart s

  normalize_key-words : (s : Text) → normalize_key u s ≡ join (codes "_") (words s)
  unfolding normalize_key trim_matches trim_us
  normalize_key-words s =
      ap (trim_matches is_underscore) (key_chars-emit [] false (trim u s))
      ∙ ap trim_us (trim_start_gap (trim u s))
      ∙ (emit-words (trim u s)).0
      ∙ ap (join (codes "_")) (words-trim s)

  -- A key is the words of the text, its longest runs of ASCII letters and digits, in lower case with
  -- one underscore between two of them; what is normalized once stays as it is.
  pub normalize_key_normal :
      (s : Text)
      → (normalize_key u s ≡ join (codes "_") (words s))
        × (normalize_key u (normalize_key u s) ≡ normalize_key u s)
  normalize_key_normal s = (normalize_key-words s, normalize_key_idem u s)
