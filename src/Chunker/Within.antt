-- ===== src/Chunker/Within.antt =====
-- crates/ultramem-core/src/engine/chunker.rs: the pieces that go into chunks are no longer than the
-- target.
use ultramem.Prelude.{
  ℕ, ◌+◌, ◌≤◌, ltb, leb, leb→le, Text, Unicode, trim, split_inclusive, Bool, true, false, not, ◌&&◌,
  List, [], ◌∷◌, ◌++◌, flat_map, map, filter, length, length-append, is_empty, if◌then◌else◌, ◌≡◌,
  refl, inl, inr, Option-cases, trim_start, arith, Bool-cases, All, All-append, blank, chunks,
  length-chunks, length-trim_matches-le,
}
use ultramem.Chunker.Plain.{ends_sentence, split_sentences, split_long, bounded, paragraph_pieces}
use ultramem.Chunker.Markdown.{Trail, flush, sections_from, heading_level, enter}

-- Every text of a list is at most `n` characters long.
pub record AllWithin (n : ℕ) (xs : List Text) : Type 0 where
  pub each : All (λ s. length s ≤ n) xs

module _ {n : ℕ} where
  pub none_within : AllWithin n []
  none_within = record { each = tt }

  pub cons_within :
      {x : Text} {xs : List Text} → length x ≤ n → AllWithin n xs → AllWithin n (x ∷ xs)
  cons_within h k = record { each = (h, k.each) }

  pub uncons_within :
      {x : Text} {xs : List Text} → AllWithin n (x ∷ xs) → (length x ≤ n) × AllWithin n xs
  uncons_within h = let (k, ks) = h.each in (k, record { each = ks })

  pub append_within : {xs ys : List Text} → AllWithin n xs → AllWithin n ys → AllWithin n (xs ++ ys)
  append_within {xs} {ys} h k = record { each = All-append _ xs ys h.each k.each }

  pub filter_within :
      (p : Text → Bool) (xs : List Text) → AllWithin n xs → AllWithin n (filter p xs)
  filter_within p [] h = h
  filter_within p (x ∷ xs) h =
      let (k, ks) = uncons_within h in
      elim (Bool-cases (p x)) [
        | inl e ↦ rw e (cons_within k (filter_within p xs ks))
        | inr e ↦ rw e (filter_within p xs ks)
      ]

  pub flat_map_within :
      (f : Text → List Text)
      → ((x : Text) → AllWithin n (f x))
      → (xs : List Text) → AllWithin n (flat_map f xs)
  unfolding flat_map
  flat_map_within f h [] = none_within
  flat_map_within f h (x ∷ xs) = append_within (h x) (flat_map_within f h xs)

module _ (u : Unicode) where
  pub length-trim-le : (s : Text) → length (trim u s) ≤ length s
  length-trim-le s = length-trim_matches-le u.is_whitespace s

  trim_within : (n : ℕ) (xs : List Text) → AllWithin n xs → AllWithin n (map (trim u) xs)
  trim_within n [] h = h
  trim_within n (x ∷ xs) h =
      let (k, ks) = uncons_within h in
      cons_within (omega (arith, length-trim-le x)) (trim_within n xs ks)

  pub if_within :
      (b : Bool) (n : ℕ) (x : Text) → length x ≤ n → AllWithin n (if b then [] else x ∷ [])
  if_within true n x h = none_within
  if_within false n x h = cons_within h none_within

  module _ (target : ℕ) where
    within_pushed :
        (full : Bool) (cur : Text)
        → length cur ≤ target
        → AllWithin target (if full then trim u cur ∷ [] else [])
    within_pushed true cur h = cons_within (omega (arith, length-trim-le cur)) none_within
    within_pushed false cur h = none_within

    within_kept :
        (full : Bool) (cur s : Text)
        → length cur ≤ target
        → length s ≤ target
        → (full ≡ false → length cur + length s ≤ target)
        → length ((if full then [] else cur) ++ s) ≤ target
    within_kept true cur s h k f = k
    within_kept false cur s h k f = omega (arith, length-append cur s, f refl)

    not_full :
        (cur s : Text)
        → length s ≤ target
        → not (is_empty cur) && ltb target (length cur + length s) ≡ false
        → length cur + length s ≤ target
    not_full [] s k e = omega arith
    not_full (c ∷ cur) s k e = ground arith

    within_emptied :
        (full : Bool) (cur : Text)
        → length cur ≤ target
        → length (if full then [] else cur) ≤ target
    within_emptied true cur h = omega arith
    within_emptied false cur h = h

    windows_within : (s : Text) → AllWithin target (chunks target s)
    windows_within s = record { each = length-chunks target s }

    split_sentences-AllWithin :
        (cur : Text) (ss : List Text)
        → length cur ≤ target
        → AllWithin target (split_sentences u target cur ss)
    unfolding split_sentences
    split_sentences-AllWithin cur [] h =
        if_within (blank u cur) target (trim u cur) (omega (arith, length-trim-le cur))
    split_sentences-AllWithin cur (s ∷ ss) h =
        let full = not (is_empty cur) && ltb target (length cur + length s) in
        let kept = if full then [] else cur in
        let before = within_pushed full cur h in
        elim (Bool-cases (ltb target (length s))) [
          | inl e ↦
              rw (split_sentences, e)
                (append_within before (
                  append_within (trim_within target (chunks target s) (windows_within s))
                    (split_sentences-AllWithin kept ss (within_emptied full cur h))))
          | inr e ↦
              let k : length s ≤ target = ground arith in
              let fits = within_kept full cur s h k (not_full cur s k) in
              rw (split_sentences, e)
                (append_within before (split_sentences-AllWithin (kept ++ s) ss fits))
        ]

    -- No piece of `split_long` is longer than the target.
    pub split_long-AllWithin : (p : Text) → AllWithin target (split_long u p target)
    unfolding split_long
    split_long-AllWithin p =
        filter_within (λ s. not (is_empty s)) _
          (split_sentences-AllWithin [] (split_inclusive ends_sentence p) (omega arith))

    pub bounded-AllWithin : (p : Text) → AllWithin target (bounded u target p)
    bounded-AllWithin p = elim (Bool-cases (leb (length p) target)) [
      | inl e ↦ rw e (cons_within (leb→le (length p) target e) none_within)
      | inr e ↦ rw e (split_long-AllWithin p)
    ]

    pub paragraph_pieces-AllWithin : (t : Text) → AllWithin target (paragraph_pieces u target t)
    unfolding paragraph_pieces
    paragraph_pieces-AllWithin t = flat_map_within (bounded u target) bounded-AllWithin _

    flush-AllWithin : (trail : Trail) (body : Text) → AllWithin target (flush u target trail body)
    unfolding flush
    flush-AllWithin trail body = elim (Bool-cases (blank u body)) [
      | inl e ↦ rw e none_within
      | inr e ↦ rw e (bounded-AllWithin _)
    ]

    pub sections_from-AllWithin :
        (trail : Trail) (body : Text) (ls : List Text)
        → AllWithin target (sections_from u target trail body ls)
    unfolding sections_from
    sections_from-AllWithin trail body [] = flush-AllWithin trail body
    sections_from-AllWithin trail body (l ∷ ls) =
        elim (Option-cases (heading_level (trim_start u l))) [
          | inl e ↦
              rw (sections_from, e) (sections_from-AllWithin trail (body ++ (l ++ (10 ∷ []))) ls)
          | inr (level, e) ↦
              rw (sections_from, e)
                (append_within (flush-AllWithin trail body)
                  (sections_from-AllWithin (enter trail level (trim_start u l)) [] ls))
        ]
