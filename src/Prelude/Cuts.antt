-- ===== src/Prelude/Cuts.antt =====
-- More of what the source takes from the methods of `str`, `char` and slices: cutting a text into
-- pieces, and the white space of a text.
use Prim.Native.Nat.{ℕ, zero, suc, ◌≤◌, ◌<◌}
use mathlib.Core.Path.{◌≡◌, refl, ap, ◌∙◌}
use mathlib.Core.Logic.{inl, inr}
use mathlib.Core.Bool.{Bool, true, false, not, ◌&&◌}
use mathlib.Core.List.{List, [], ◌∷◌, ◌++◌, flatten}
use native.Mathlib.Omega.{arith}
use ultramem.Prelude.Tests.{if◌then◌else◌, ◌==◌, Bool-cases}
use ultramem.Prelude.Lists.{
  is_empty, length, filter, take, drop, All, length-take, length-drop, take-append-drop,
}
use ultramem.Prelude.Texts.{Text, Unicode, trim, split, split_inclusive, cons_head}

-- `slice::chunks(n)` for n > 0: windows of n characters, a shorter one last. The fuel is a bound
-- on the number of windows.
chunks_fuel : ℕ → ℕ → Text → List Text
chunks_fuel zero n s = []
chunks_fuel (suc fuel) n [] = []
chunks_fuel (suc fuel) n (c ∷ s) = take n (c ∷ s) ∷ chunks_fuel fuel n (drop n (c ∷ s))

unfoldable pub chunks : ℕ → Text → List Text
unfolding chunks_fuel
chunks n s = chunks_fuel (length s) n s

flatten-chunks_fuel :
    (fuel n : ℕ) (s : Text) → 0 < n → length s ≤ fuel → flatten (chunks_fuel fuel n s) ≡ s
unfolding chunks_fuel flatten
flatten-chunks_fuel zero n [] h k = refl
flatten-chunks_fuel zero n (c ∷ s) h k = absurd (omega arith)
flatten-chunks_fuel (suc fuel) n [] h k = refl
flatten-chunks_fuel (suc fuel) n (c ∷ s) h k =
    let shorter : length (drop n (c ∷ s)) ≤ fuel = omega (arith, length-drop n (c ∷ s)) in
    ap (◌++◌ (take n (c ∷ s))) (flatten-chunks_fuel fuel n (drop n (c ∷ s)) h shorter)
    ∙ take-append-drop n (c ∷ s)

pub flatten-chunks : (n : ℕ) (s : Text) → 0 < n → flatten (chunks n s) ≡ s
unfolding chunks
flatten-chunks n s h = flatten-chunks_fuel (length s) n s h (omega arith)

length-chunks_fuel : (fuel n : ℕ) (s : Text) → All (λ w. length w ≤ n) (chunks_fuel fuel n s)
unfolding chunks_fuel
length-chunks_fuel zero n s = tt
length-chunks_fuel (suc fuel) n [] = tt
length-chunks_fuel (suc fuel) n (c ∷ s) =
    (omega (arith, length-take n (c ∷ s)), length-chunks_fuel fuel n (drop n (c ∷ s)))

pub length-chunks : (n : ℕ) (s : Text) → All (λ w. length w ≤ n) (chunks n s)
unfolding chunks
length-chunks n s = length-chunks_fuel (length s) n s

pub flatten-cons_head : (c : ℕ) (ws : List Text) → flatten (cons_head c ws) ≡ c ∷ flatten ws
unfolding flatten
flatten-cons_head c [] = refl
flatten-cons_head c (w ∷ ws) = refl

pub flatten-split_inclusive : (p : ℕ → Bool) (s : Text) → flatten (split_inclusive p s) ≡ s
unfolding split_inclusive flatten
flatten-split_inclusive p [] = refl
flatten-split_inclusive p (c ∷ s) = elim (Bool-cases (p c)) [
  | inl e ↦ rw e (ap (◌∷◌ c) (flatten-split_inclusive p s))
  | inr e ↦ rw (e, flatten-cons_head) (ap (◌∷◌ c) (flatten-split_inclusive p s))
]

-- `split("\n\n")`.
unfoldable pub split_paragraphs : Text → List Text
split_paragraphs [] = [] ∷ []
split_paragraphs (c ∷ []) = (c ∷ []) ∷ []
split_paragraphs (c ∷ d ∷ s) = elim ((c == 10) && (d == 10)) [
  | true ↦ [] ∷ split_paragraphs s
  | false ↦ cons_head c (split_paragraphs (d ∷ s))
]

pub paragraph_ends :
    (c d : ℕ) (s : Text)
    → (c == 10) && (d == 10) ≡ true
    → split_paragraphs (c ∷ d ∷ s) ≡ [] ∷ split_paragraphs s
unfolding split_paragraphs
paragraph_ends c d s e = ground arith

pub paragraph_goes_on :
    (c d : ℕ) (s : Text)
    → (c == 10) && (d == 10) ≡ false
    → split_paragraphs (c ∷ d ∷ s) ≡ cons_head c (split_paragraphs (d ∷ s))
unfolding split_paragraphs
paragraph_goes_on c d s e = ground arith

-- `chars().take_while(|c| *c == d).count()`.
unfoldable pub leading : ℕ → Text → ℕ
leading d [] = 0
leading d (c ∷ s) = let rest = leading d s in if c == d then suc rest else 0

-- `split_whitespace()`, and `trim().is_empty()`.
module _ (u : Unicode) where
  unfoldable pub split_whitespace : Text → List Text
  unfolding split
  split_whitespace s = filter (λ w. not (is_empty w)) (split u.is_whitespace s)

  abbrev pub blank : Text → Bool
  blank s = is_empty (trim u s)
