-- ===== src/Prelude/Solid.antt =====
-- The characters of a text that are not white space, through the functions that cut a text.
use Prim.Native.Nat.{ℕ}
use mathlib.Core.Path.{◌≡◌, refl, sym, subst⁻¹, ap, ap₂, ◌∙◌}
use mathlib.Core.Logic.{inl, inr}
use mathlib.Core.Bool.{true, not, ◌&&◌}
use mathlib.Core.List.{List, [], ◌∷◌, ◌++◌, map, flatten, flat_map, append_assoc}
use native.Mathlib.Omega.{arith}
use ultramem.Prelude.Tests.{if◌then◌else◌, ◌==◌, Bool-cases, &&_split, ==_iff}
use ultramem.Prelude.Lists.{is_empty, filter, filter-append}
use ultramem.Prelude.Texts.{
  Text, Unicode, trim, split_inclusive, trim_start_matches, trim_end_matches, trim_matches,
  strip_newline, lines,
}
use ultramem.Prelude.Cuts.{
  blank, split_paragraphs, paragraph_ends, paragraph_goes_on, flatten-cons_head,
  flatten-split_inclusive,
}

pub flatten-append {ℓ} :
    {A : Type ℓ} (xs ys : List (List A)) → flatten (xs ++ ys) ≡ flatten xs ++ flatten ys
unfolding flatten
flatten-append [] ys = refl
flatten-append (x ∷ xs) ys =
    ap (◌++◌ x) (flatten-append xs ys) ∙ sym (append_assoc x (flatten xs) (flatten ys))

-- An empty piece adds nothing.
pub flatten-filter : (xs : List Text) → flatten (filter (λ s. not (is_empty s)) xs) ≡ flatten xs
unfolding flatten
flatten-filter [] = refl
flatten-filter ([] ∷ xs) = flatten-filter xs
flatten-filter ((c ∷ x) ∷ xs) = ap (◌++◌ (c ∷ x)) (flatten-filter xs)

module _ (u : Unicode) where
  unfoldable pub solid : Text → Text
  solid = filter (λ c. not (u.is_whitespace c))

  pub solid-append : (s t : Text) → solid (s ++ t) ≡ solid s ++ solid t
  unfolding solid
  solid-append s t = filter-append _ s t

  pub solid-flatten-append :
      (xs ys : List Text) → solid (flatten (xs ++ ys)) ≡ solid (flatten xs) ++ solid (flatten ys)
  solid-flatten-append xs ys =
      ap solid (flatten-append xs ys) ∙ solid-append (flatten xs) (flatten ys)

  solid-trim_start : (s : Text) → solid (trim_start_matches u.is_whitespace s) ≡ solid s
  unfolding solid trim_start_matches
  solid-trim_start [] = refl
  solid-trim_start (c ∷ s) = ground (arith, solid-trim_start s)

  solid-trim_end : (s : Text) → solid (trim_end_matches u.is_whitespace s) ≡ solid s
  unfolding solid trim_end_matches
  solid-trim_end [] = refl
  solid-trim_end (c ∷ s) = ground (arith, solid-trim_end s)

  pub solid-trim : (s : Text) → solid (trim u s) ≡ solid s
  unfolding trim_matches
  solid-trim s = solid-trim_end _ ∙ solid-trim_start s

  pub solid-blank : (s : Text) → blank u s ≡ true → solid s ≡ []
  unfolding solid
  solid-blank s h = sym (solid-trim s) ∙ ap solid (empty (trim u s) h)
    where
      empty : (t : Text) → is_empty t ≡ true → t ≡ []
      empty [] h = refl
      empty (c ∷ t) h = cc

  solid_cons : (c : ℕ) (s t : Text) → solid s ≡ solid t → solid (c ∷ s) ≡ solid (c ∷ t)
  unfolding solid
  solid_cons c s t h = ground (arith, h)

  solid_newline : (s : Text) → solid (10 ∷ s) ≡ solid s
  unfolding solid
  solid_newline s = rw u.newline_is_whitespace

  pub solid_paragraph : (s : Text) → solid (10 ∷ 10 ∷ s) ≡ solid s
  solid_paragraph s = solid_newline (10 ∷ s) ∙ solid_newline s

  pub solid-flatten-split_paragraphs : (s : Text) → solid (flatten (split_paragraphs s)) ≡ solid s
  unfolding flatten split_paragraphs
  solid-flatten-split_paragraphs [] = refl
  solid-flatten-split_paragraphs (c ∷ []) = refl
  solid-flatten-split_paragraphs (c ∷ d ∷ s) = elim (Bool-cases ((c == 10) && (d == 10))) [
    | inl e ↦
        let (x, y) = &&_split (c == 10) (d == 10) e in
        let p : c ≡ 10 = (==_iff c 10).0 x in
        let q : d ≡ 10 = (==_iff d 10).0 y in
        ap (λ ws. solid (flatten ws)) (paragraph_ends c d s e)
        ∙ (solid-flatten-split_paragraphs s ∙ rw (p, q) (sym (solid_paragraph s)))
    | inr e ↦
        ap (λ ws. solid (flatten ws)) (paragraph_goes_on c d s e)
        ∙ (ap solid (flatten-cons_head c (split_paragraphs (d ∷ s)))
            ∙ solid_cons c _ _ (solid-flatten-split_paragraphs (d ∷ s)))
  ]

  solid_space : (c : ℕ) (s : Text) → u.is_whitespace c ≡ true → solid (c ∷ s) ≡ solid s
  unfolding solid
  solid_space c s h = rw h

  solid_end : (c : ℕ) → solid (if c == 13 then [] else c ∷ []) ≡ solid (c ∷ [])
  solid_end c = elim (Bool-cases (c == 13)) [
    | inl e ↦ rw e (
        sym (
          solid_space c []
            (subst⁻¹ (λ d. u.is_whitespace d ≡ true) ((==_iff c 13).0 e) u.return_is_whitespace)))
    | inr e ↦ rw e
  ]

  solid-strip_newline : (s : Text) → solid (strip_newline s) ≡ solid s
  solid-strip_newline [] = refl
  solid-strip_newline (c ∷ []) = elim (Bool-cases (c == 10)) [
    | inl e ↦ rw e (
        sym (
          solid_space c []
            (subst⁻¹ (λ d. u.is_whitespace d ≡ true) ((==_iff c 10).0 e) u.newline_is_whitespace)))
    | inr e ↦ rw e
  ]
  solid-strip_newline (c ∷ d ∷ []) = elim (Bool-cases (d == 10)) [
    | inl e ↦
        let h =
          subst⁻¹ (λ d. u.is_whitespace d ≡ true) ((==_iff d 10).0 e) u.newline_is_whitespace in
        rw e (solid_end c ∙ solid_cons c [] (d ∷ []) (sym (solid_space d [] h)))
    | inr e ↦ rw e
  ]
  solid-strip_newline (c ∷ d ∷ e ∷ s) =
      solid_cons c (strip_newline (d ∷ e ∷ s)) (d ∷ e ∷ s) (solid-strip_newline (d ∷ e ∷ s))

  module _ (f : Text → Text) (keeps : (x : Text) → solid (f x) ≡ solid x) where
    pub solid-flatten-map : (xs : List Text) → solid (flatten (map f xs)) ≡ solid (flatten xs)
    unfolding flatten
    solid-flatten-map [] = refl
    solid-flatten-map (x ∷ xs) =
        solid-append (f x) (flatten (map f xs))
        ∙ (ap₂ ◌++◌ (keeps x) (solid-flatten-map xs) ∙ sym (solid-append x (flatten xs)))

  module _ (f : Text → List Text) (keeps : (x : Text) → solid (flatten (f x)) ≡ solid x) where
    pub solid-flatten-flat_map :
        (xs : List Text) → solid (flatten (flat_map f xs)) ≡ solid (flatten xs)
    unfolding flatten flat_map
    solid-flatten-flat_map [] = refl
    solid-flatten-flat_map (x ∷ xs) =
        solid-flatten-append (f x) (flat_map f xs)
        ∙ (ap₂ ◌++◌ (keeps x) (solid-flatten-flat_map xs) ∙ sym (solid-append x (flatten xs)))

  pub solid-flatten-lines : (s : Text) → solid (flatten (lines s)) ≡ solid s
  unfolding lines
  solid-flatten-lines s =
      solid-flatten-map strip_newline solid-strip_newline (split_inclusive (λ c. c == 10) s)
      ∙ ap solid (flatten-split_inclusive (λ c. c == 10) s)
