-- ===== src/Memory/Expiry.antt =====
-- crates/ultramem-core/src/engine/memory.rs: parse_expiry, the suffix that says until when a fact
-- holds.
use ultramem.Prelude.{
  ℕ, ℤ, suc, ◌+◌, ◌-◌, Text, codes, starts_with, ends_with, trim, Unicode, [], ◌∷◌, take, drop,
  length, Option, none, some, if◌then◌else◌,
}

-- `rfind` of a text that is not empty.
unfoldable pub rfind_text : Text → Text → Option ℕ
unfolding starts_with
rfind_text p [] = none
rfind_text p (c ∷ s) = elim (rfind_text p s) [
  | some n ↦ some (suc n)
  | none ↦ if starts_with p (c ∷ s) then some 0 else none
]

-- `end_of_day` is chrono's: the last second of a date, if it is one.
module _ (u : Unicode) (end_of_day : Text → Option ℤ) where
  -- What stands between the opening and the last character.
  abbrev pub date_str : Text → ℕ → Text
  date_str trimmed start = take (length trimmed - 1 - (start + 7)) (drop (start + 7) trimmed)

  abbrev pub expiring : Text → ℕ → Option ℤ → Text × Option ℤ
  expiring trimmed start none = (trimmed, none)
  expiring trimmed start (some end) = (trim u (take start trimmed), some end)

  abbrev pub split_suffix : Text → Option ℕ → Text × Option ℤ
  split_suffix trimmed none = (trimmed, none)
  split_suffix trimmed (some start) =
      if ends_with (codes "]") trimmed
      then expiring trimmed start (end_of_day (trim u (date_str trimmed start)))
      else (trimmed, none)

  unfoldable pub parse_expiry : Text → Text × Option ℤ
  unfolding rfind_text ends_with
  parse_expiry fact =
      let trimmed = trim u fact in split_suffix trimmed (rfind_text (codes "[until ") trimmed)
