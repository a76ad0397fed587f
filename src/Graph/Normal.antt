-- ===== src/Graph/Normal.antt =====
-- crates/ultramem-core/src/engine/graph.rs: the keys of normalize_key are in a normal form, which it
-- keeps.
use ultramem.Prelude.{
  ℕ, ◌==◌, ==_iff, Text, is_ascii_alphanumeric, ascii_lowercase, ascii_lower, is_ascii_digit, trim,
  trim_matches, trim_start_matches, trim_end_matches, trim_idem, trim_lacks, Unicode, Bool, true,
  false, not, ◌&&◌, ◌||◌, &&_split, [], ◌∷◌, ◌++◌, append_assoc, append-nil, all, ◌≡◌, refl, sym,
  ap, subst, ◌∙◌, arith, inl, inr, Bool-cases, true-false, if◌then◌else◌,
}
use ultramem.Graph.{key_chars, normalize_key}

abbrev pub is_underscore : ℕ → Bool
is_underscore c = c == b'_'

-- What the loop of `normalize_key` puts out from a state on.
unfoldable pub emit : Bool → Text → Text
emit prev_us [] = []
emit prev_us (c ∷ s) =
    if is_ascii_alphanumeric c
    then ascii_lowercase c ∷ emit false s
    else if not prev_us
    then b'_' ∷ emit true s
    else emit prev_us s

pub key_chars-emit :
    (out : Text) (prev_us : Bool) (s : Text) → key_chars out prev_us s ≡ out ++ emit prev_us s
unfolding key_chars emit
key_chars-emit out prev_us [] = sym (append-nil out)
key_chars-emit out prev_us (c ∷ s) = elim (Bool-cases (is_ascii_alphanumeric c)) [
  | inl e ↦ rw e (
      key_chars-emit (out ++ ascii_lowercase c ∷ []) false s
      ∙ append_assoc out (ascii_lowercase c ∷ []) (emit false s))
  | inr e ↦ elim (Bool-cases prev_us) [
    | inl f ↦ rw (e, f) (key_chars-emit out true s)
    | inr f ↦
        rw (e, f)
          (key_chars-emit (out ++ b'_' ∷ []) true s ∙ append_assoc out (b'_' ∷ []) (emit true s))
  ]
]

-- A lower-case ASCII letter or a digit.
unfoldable pub is_key_char : ℕ → Bool
unfolding is_ascii_digit
is_key_char c = is_ascii_digit c || ascii_lower c

-- Letters and digits in words that one underscore each joins; `prev_us` is whether an underscore
-- stands before the text.
unfoldable pub is_joined : Bool → Text → Bool
is_joined prev_us [] = true
is_joined prev_us (c ∷ s) =
    if is_key_char c then is_joined false s else is_underscore c && not prev_us && is_joined true s

lowercase-is_key_char :
    (c : ℕ) → is_ascii_alphanumeric c ≡ true → is_key_char (ascii_lowercase c) ≡ true
unfolding is_key_char is_ascii_alphanumeric ascii_lowercase is_ascii_digit
lowercase-is_key_char c h = ground arith

is_key_char_fixed :
    (c : ℕ) → is_key_char c ≡ true → (is_ascii_alphanumeric c ≡ true) × (ascii_lowercase c ≡ c)
unfolding is_key_char is_ascii_alphanumeric ascii_lowercase is_ascii_digit
is_key_char_fixed c h = ground arith

underscore_is_no_key_char : is_key_char b'_' ≡ false
unfolding is_key_char is_ascii_digit
underscore_is_no_key_char = refl

underscore_is_not_alphanumeric : is_ascii_alphanumeric b'_' ≡ false
unfolding is_ascii_alphanumeric is_ascii_digit
underscore_is_not_alphanumeric = refl

emit-is_joined : (prev_us : Bool) (s : Text) → is_joined prev_us (emit prev_us s) ≡ true
unfolding emit is_joined
emit-is_joined prev_us [] = refl
emit-is_joined prev_us (c ∷ s) = elim (Bool-cases (is_ascii_alphanumeric c)) [
  | inl e ↦ rw (e, lowercase-is_key_char c e) (emit-is_joined false s)
  | inr e ↦ elim (Bool-cases prev_us) [
    | inl f ↦ rw (e, f) (emit-is_joined true s)
    | inr f ↦ rw (e, f, underscore_is_no_key_char) (emit-is_joined true s)
  ]
]

emit_fixed : (prev_us : Bool) (s : Text) → is_joined prev_us s ≡ true → emit prev_us s ≡ s
unfolding emit is_joined
emit_fixed prev_us [] h = refl
emit_fixed prev_us (c ∷ s) h = elim (Bool-cases (is_key_char c)) [
  | inl e ↦
      let (a, l) = is_key_char_fixed c e in rw (a, l) (ap (◌∷◌ c) (emit_fixed false s (rw e at h)))
  | inr e ↦
      let (x, y) = &&_split (is_underscore c && not prev_us) (is_joined true s) (rw e at h) in
      let (p, q) = &&_split (is_underscore c) (not prev_us) x in
      let r : c ≡ b'_' = (==_iff c b'_').0 p in
      rw (r, underscore_is_not_alphanumeric, q) (ap (◌∷◌ b'_') (emit_fixed true s y))
]

is_joined_weaken : (s : Text) → is_joined true s ≡ true → is_joined false s ≡ true
unfolding is_joined
is_joined_weaken [] h = refl
is_joined_weaken (c ∷ s) h = elim (Bool-cases (is_key_char c)) [
  | inl e ↦ rw e (rw e at h)
  | inr e ↦ let k = rw e at h in ground arith
]

underscore_first : (s : Text) → is_joined false (b'_' ∷ s) ≡ true → is_joined true s ≡ true
unfolding is_joined
underscore_first s k = rw underscore_is_no_key_char at k

joined_underscore :
    (c : ℕ) (s : Text)
    → is_underscore c ≡ true
    → is_joined false (c ∷ s) ≡ true
    → is_joined true s ≡ true
joined_underscore c s e h =
    underscore_first s (subst (λ d. is_joined false (d ∷ s) ≡ true) ((==_iff c b'_').0 e) h)

is_joined-trim_start :
    (s : Text)
    → is_joined false s ≡ true
    → is_joined false (trim_start_matches is_underscore s) ≡ true
unfolding trim_start_matches is_joined
is_joined-trim_start [] h = refl
is_joined-trim_start (c ∷ s) h = elim (Bool-cases (is_underscore c)) [
  | inl e ↦ rw e (is_joined-trim_start s (is_joined_weaken s (joined_underscore c s e h)))
  | inr e ↦ rw e h
]

is_joined-trim_end :
    (prev_us : Bool) (s : Text)
    → is_joined prev_us s ≡ true
    → is_joined prev_us (trim_end_matches is_underscore s) ≡ true
unfolding trim_end_matches is_joined
is_joined-trim_end prev_us [] h = refl
is_joined-trim_end prev_us (c ∷ s) h =
    ground (arith, is_joined-trim_end false s, is_joined-trim_end true s)

module _ (u : Unicode) where
  key_char_solid : (c : ℕ) → is_key_char c ≡ true → u.is_whitespace c ≡ false
  key_char_solid c h = elim (Bool-cases (u.is_whitespace c)) [
    | inl e ↦ absurd (
        true-false (u.ascii_is_alphanumeric c (is_key_char_fixed c h).0)
          (u.whitespace_not_alphanumeric c e))
    | inr e ↦ e
  ]

  is_joined_solid :
      (prev_us : Bool) (s : Text)
      → is_joined prev_us s ≡ true
      → all (λ c. not (u.is_whitespace c)) s ≡ true
  unfolding is_joined
  is_joined_solid prev_us [] h = refl
  is_joined_solid prev_us (c ∷ s) h = elim (Bool-cases (is_key_char c)) [
    | inl e ↦ rw (key_char_solid c e) (is_joined_solid false s (rw e at h))
    | inr e ↦
        let (x, y) = &&_split (is_underscore c && not prev_us) (is_joined true s) (rw e at h) in
        let (p, q) = &&_split (is_underscore c) (not prev_us) x in
        rw ((==_iff c b'_').0 p, u.underscore_not_whitespace) (is_joined_solid true s y)
  ]

  pub normalize_key-is_joined : (s : Text) → is_joined false (normalize_key u s) ≡ true
  unfolding normalize_key trim_matches
  normalize_key-is_joined s = rw (key_chars-emit [] false (trim u s)) (
      is_joined-trim_end false (trim_start_matches is_underscore (emit false (trim u s)))
        (is_joined-trim_start (emit false (trim u s)) (emit-is_joined false (trim u s))))

  normalize_key_trimmed :
      (s : Text) → trim_matches is_underscore (normalize_key u s) ≡ normalize_key u s
  unfolding normalize_key
  normalize_key_trimmed s = trim_idem is_underscore (key_chars [] false (trim u s))

  normalize_key_fixed :
      (k : Text)
      → is_joined false k ≡ true
      → trim_matches is_underscore k ≡ k
      → normalize_key u k ≡ k
  unfolding normalize_key
  normalize_key_fixed k h t =
      ap (λ x. trim_matches is_underscore (key_chars [] false x))
        (trim_lacks u.is_whitespace k (is_joined_solid false k h))
      ∙ (ap (trim_matches is_underscore) (key_chars-emit [] false k ∙ emit_fixed false k h) ∙ t)

  -- What is normalized once stays as it is.
  pub normalize_key_idem : (s : Text) → normalize_key u (normalize_key u s) ≡ normalize_key u s
  normalize_key_idem s =
      normalize_key_fixed (normalize_key u s) (normalize_key-is_joined s) (normalize_key_trimmed s)
