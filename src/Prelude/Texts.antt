-- ===== src/Prelude/Texts.antt =====
-- Texts as lists of code points, with the `str` methods that the source calls. What the standard
-- library takes from the Unicode tables is an interface, `Unicode`.
use Prim.Native.Nat.{ℕ, suc, ◌+◌, ◌≤◌}
use Prim.Native.Char.{code}
use Prim.Native.String.{String}
use mathlib.Core.Path.{◌≡◌, refl, ap₂}
use mathlib.Core.Logic.{◌↔◌}
use mathlib.Core.Bool.{Bool, true, false, not, ◌&&◌, ◌||◌}
use mathlib.Core.List.{List, [], ◌∷◌, ◌++◌, map}
use mathlib.Core.Option.{Option, none, some}
use native.Mathlib.Omega.{arith}
use ultramem.Prelude.Tests.{if◌then◌else◌, ◌==◌, ltb, leb, ==_iff, &&_split}
use ultramem.Prelude.Lists.{is_empty, length, all}

abbrev pub Text : Type 0
Text = List ℕ

-- The code points of a literal.
abbrev pub codes : String → Text
codes String.[] = []
codes (String.◌∷◌ c s) = code c ∷ codes s

-- `a == b` on texts.
unfoldable pub same : Text → Text → Bool
same [] [] = true
same (x ∷ xs) (y ∷ ys) = (x == y) && same xs ys
same _ _ = false

same→eq : (a b : Text) → same a b ≡ true → a ≡ b
unfolding same
same→eq [] [] h = refl
same→eq [] (y ∷ ys) h = cc
same→eq (x ∷ xs) [] h = cc
same→eq (x ∷ xs) (y ∷ ys) h =
    let (e, t) = &&_split (x == y) (same xs ys) h in ap₂ ◌∷◌ ((==_iff x y).0 e) (same→eq xs ys t)

pub same_refl : (a : Text) → same a a ≡ true
unfolding same
same_refl [] = refl
same_refl (x ∷ xs) = ground (arith, same_refl xs)

pub same_iff : (a b : Text) → (same a b ≡ true) ↔ (a ≡ b)
same_iff a b = (same→eq a b, λ e. rw e (same_refl b))

pub same_comm : (a b : Text) → same a b ≡ same b a
unfolding same
same_comm [] [] = refl
same_comm [] (y ∷ ys) = refl
same_comm (x ∷ xs) [] = refl
same_comm (x ∷ xs) (y ∷ ys) = ground (arith, same_comm xs ys)

-- `Vec<String>::contains` and `iter().any(|x| x == a)`.
unfoldable pub contains : List Text → Text → Bool
contains [] a = false
contains (x ∷ xs) a = same x a || contains xs a

-- `Option<&str> == Option<&str>`.
unfoldable pub same_option : Option Text → Option Text → Bool
same_option none none = true
same_option (some a) (some b) = same a b
same_option _ _ = false

-- `starts_with`, `ends_with`, `strip_prefix`, `find` (a position in characters) and `contains`.
unfoldable pub strip_prefix : Text → Text → Option Text
strip_prefix [] s = some s
strip_prefix (c ∷ p) [] = none
strip_prefix (c ∷ p) (d ∷ s) = if c == d then strip_prefix p s else none

unfoldable pub starts_with : Text → Text → Bool
starts_with [] s = true
starts_with (c ∷ p) [] = false
starts_with (c ∷ p) (d ∷ s) = (c == d) && starts_with p s

unfoldable pub ends_with : Text → Text → Bool
unfolding same
ends_with p [] = is_empty p
ends_with p (c ∷ s) = same p (c ∷ s) || ends_with p s

-- A position counted from one character earlier.
abbrev pub shift : Option ℕ → Option ℕ
shift none = none
shift (some n) = some (suc n)

unfoldable pub find_text : Text → Text → Option ℕ
unfolding starts_with
find_text p [] = if is_empty p then some 0 else none
find_text p (c ∷ s) = if starts_with p (c ∷ s) then some 0 else shift (find_text p s)

-- A character put before the first piece.
abbrev pub cons_head : ℕ → List Text → List Text
cons_head c [] = (c ∷ []) ∷ []
cons_head c (w ∷ ws) = (c ∷ w) ∷ ws

-- `split(char::…)`: the pieces between the characters that fit; one piece at least.
unfoldable pub split : (ℕ → Bool) → Text → List Text
split p [] = [] ∷ []
split p (c ∷ s) = let rest = split p s in if p c then [] ∷ rest else cons_head c rest

-- `split_inclusive`: each piece keeps its separator; no empty last piece.
unfoldable pub split_inclusive : (ℕ → Bool) → Text → List Text
split_inclusive p [] = []
split_inclusive p (c ∷ s) =
    let rest = split_inclusive p s in if p c then (c ∷ []) ∷ rest else cons_head c rest

-- `split_once(c)`.
unfoldable pub split_once : ℕ → Text → Option (Text × Text)
split_once c [] = none
split_once c (d ∷ s) =
    if d == c
    then some ([], s)
    else elim (split_once c s) [ none ↦ none | some (l, r) ↦ some (d ∷ l, r) ]

-- `lines()`: a line loses its "\n" or "\r\n".
abbrev pub strip_newline : Text → Text
strip_newline [] = []
strip_newline (c ∷ []) = if c == 10 then [] else c ∷ []
strip_newline (c ∷ d ∷ []) = if d == 10 then (if c == 13 then [] else c ∷ []) else c ∷ d ∷ []
strip_newline (c ∷ d ∷ e ∷ s) = c ∷ strip_newline (d ∷ e ∷ s)

unfoldable pub lines : Text → List Text
unfolding split_inclusive
lines s = map strip_newline (split_inclusive (λ c. c == 10) s)

-- `join(sep)`.
unfoldable pub join : Text → List Text → Text
join sep [] = []
join sep (w ∷ []) = w
join sep (w ∷ v ∷ ws) = w ++ (sep ++ join sep (v ∷ ws))

-- The bytes of a text in UTF-8, `len()`.
abbrev pub utf8_len : ℕ → ℕ
utf8_len c = if ltb c 0x80 then 1 else if ltb c 0x800 then 2 else if ltb c 0x10000 then 3 else 4

unfoldable pub byte_len : Text → ℕ
byte_len [] = 0
byte_len (c ∷ s) = utf8_len c + byte_len s

unfoldable pub is_ascii_digit : ℕ → Bool
is_ascii_digit c = leb b'0' c && leb c b'9'

abbrev pub ascii_upper : ℕ → Bool
ascii_upper c = leb b'A' c && leb c b'Z'

abbrev pub ascii_lower : ℕ → Bool
ascii_lower c = leb b'a' c && leb c b'z'

-- `is_ascii_alphanumeric`.
unfoldable pub is_ascii_alphanumeric : ℕ → Bool
unfolding is_ascii_digit
is_ascii_alphanumeric c = is_ascii_digit c || ascii_upper c || ascii_lower c

-- `to_ascii_lowercase`.
unfoldable pub ascii_lowercase : ℕ → ℕ
ascii_lowercase c = if ascii_upper c then c + 32 else c

-- What `char` takes from the Unicode tables, with the facts about it that the code relies on.
pub record Unicode : Type 0 where
  pub is_whitespace : ℕ → Bool
  pub is_alphanumeric : ℕ → Bool
  pub is_uppercase : ℕ → Bool
  pub to_lowercase : ℕ → Text
  -- `str::to_lowercase`, which looks at the characters around a sigma
  pub text_to_lowercase : Text → Text
  -- a space and the ends of a line are white space, an underscore is not, an ASCII letter or digit is
  -- alphanumeric, and no white space is
  pub space_is_whitespace : is_whitespace 32 ≡ true
  pub newline_is_whitespace : is_whitespace 10 ≡ true
  pub return_is_whitespace : is_whitespace 13 ≡ true
  pub underscore_not_whitespace : is_whitespace b'_' ≡ false
  pub ascii_is_alphanumeric : (c : ℕ) → is_ascii_alphanumeric c ≡ true → is_alphanumeric c ≡ true
  pub whitespace_not_alphanumeric : (c : ℕ) → is_whitespace c ≡ true → is_alphanumeric c ≡ false

module _ (p : ℕ → Bool) where
  -- `trim_start_matches`, `trim_end_matches` and `trim_matches` of a set of characters.
  unfoldable pub trim_start_matches : Text → Text
  trim_start_matches [] = []
  trim_start_matches (c ∷ s) = if p c then trim_start_matches s else c ∷ s

  unfoldable pub trim_end_matches : Text → Text
  trim_end_matches [] = []
  trim_end_matches (c ∷ s) =
      let rest = trim_end_matches s in if is_empty rest && p c then [] else c ∷ rest

  unfoldable pub trim_matches : Text → Text
  unfolding trim_start_matches trim_end_matches
  trim_matches s = trim_end_matches (trim_start_matches s)

  pub length-trim_start_matches-le : (s : Text) → length (trim_start_matches s) ≤ length s
  unfolding trim_start_matches
  length-trim_start_matches-le [] = omega arith
  length-trim_start_matches-le (c ∷ s) = ground (arith, length-trim_start_matches-le s)

  pub length-trim_end_matches-le : (s : Text) → length (trim_end_matches s) ≤ length s
  unfolding trim_end_matches
  length-trim_end_matches-le [] = omega arith
  length-trim_end_matches-le (c ∷ s) = ground (arith, length-trim_end_matches-le s)

  pub length-trim_matches-le : (s : Text) → length (trim_matches s) ≤ length s
  unfolding trim_matches
  length-trim_matches-le s =
      omega
        (arith, length-trim_end_matches-le (trim_start_matches s), length-trim_start_matches-le s)

  trim_end_idem : (s : Text) → trim_end_matches (trim_end_matches s) ≡ trim_end_matches s
  unfolding trim_end_matches
  trim_end_idem [] = refl
  trim_end_idem (c ∷ s) = ground (arith, trim_end_idem s)

  trim_start_fixed : (c : ℕ) (s : Text) → p c ≡ false → trim_start_matches (c ∷ s) ≡ c ∷ s
  unfolding trim_start_matches
  trim_start_fixed c s h = rw h

  trim_start-trim_end :
      (s : Text)
      → trim_start_matches (trim_end_matches (trim_start_matches s))
        ≡ trim_end_matches (trim_start_matches s)
  unfolding trim_start_matches trim_end_matches
  trim_start-trim_end [] = refl
  trim_start-trim_end (c ∷ s) = ground (arith, trim_start-trim_end s)

  pub trim_idem : (s : Text) → trim_matches (trim_matches s) ≡ trim_matches s
  unfolding trim_matches
  trim_idem s = rw trim_start-trim_end (trim_end_idem (trim_start_matches s))

  trim_end_lacks : (s : Text) → all (λ c. not (p c)) s ≡ true → trim_end_matches s ≡ s
  unfolding trim_end_matches
  trim_end_lacks [] h = refl
  trim_end_lacks (c ∷ s) h =
      ground (arith, &&_split (not (p c)) (all (λ c. not (p c)) s) h, trim_end_lacks s)

  trim_start_lacks : (s : Text) → all (λ c. not (p c)) s ≡ true → trim_start_matches s ≡ s
  unfolding trim_start_matches
  trim_start_lacks [] h = refl
  trim_start_lacks (c ∷ s) h = ground (arith, &&_split (not (p c)) (all (λ c. not (p c)) s) h)

  -- A text without a character of the set is trimmed.
  pub trim_lacks : (s : Text) → all (λ c. not (p c)) s ≡ true → trim_matches s ≡ s
  unfolding trim_matches
  trim_lacks s h = rw (trim_start_lacks s h) (trim_end_lacks s h)

module _ (u : Unicode) where
  abbrev pub trim : Text → Text
  trim = trim_matches u.is_whitespace

  abbrev pub trim_start : Text → Text
  trim_start = trim_start_matches u.is_whitespace

  abbrev pub to_lower : Text → Text
  to_lower = u.text_to_lowercase

-- The tables cut down to ASCII, an instance of the interface.
unfoldable pub ascii_whitespace : ℕ → Bool
ascii_whitespace c = (c == 32) || (leb 9 c && leb c 13)

pub ascii_whitespace_not_alphanumeric :
    (c : ℕ) → ascii_whitespace c ≡ true → is_ascii_alphanumeric c ≡ false
unfolding ascii_whitespace is_ascii_alphanumeric
ascii_whitespace_not_alphanumeric c h = ground arith

pub space_is_ascii_whitespace : ascii_whitespace 32 ≡ true
unfolding ascii_whitespace
space_is_ascii_whitespace = refl

pub return_is_ascii_whitespace : ascii_whitespace 13 ≡ true
unfolding ascii_whitespace
return_is_ascii_whitespace = refl

pub underscore_not_ascii_whitespace : ascii_whitespace b'_' ≡ false
unfolding ascii_whitespace
underscore_not_ascii_whitespace = refl

pub newline_is_ascii_whitespace : ascii_whitespace 10 ≡ true
unfolding ascii_whitespace
newline_is_ascii_whitespace = refl

unfoldable pub ascii : Unicode
unfolding ascii_whitespace is_ascii_alphanumeric ascii_lowercase
ascii = record {
  is_whitespace = ascii_whitespace;
  is_alphanumeric = is_ascii_alphanumeric;
  is_uppercase = ascii_upper;
  to_lowercase = λ c. ascii_lowercase c ∷ [];
  text_to_lowercase = map ascii_lowercase;
  space_is_whitespace = space_is_ascii_whitespace;
  newline_is_whitespace = newline_is_ascii_whitespace;
  underscore_not_whitespace = underscore_not_ascii_whitespace;
  ascii_is_alphanumeric = λ c h. h;
  return_is_whitespace = return_is_ascii_whitespace;
  whitespace_not_alphanumeric = ascii_whitespace_not_alphanumeric;
}
