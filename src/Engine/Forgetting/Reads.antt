-- ===== src/Engine/Forgetting/Reads.antt =====
-- What the statements of `forget_memory` read and leave as it is.
use ultramem.Prelude.{
  Text, codes, Bool, false, List, [], ◌∷◌, any, find, Option, none, ◌≡◌, refl, Bool-cases, inl, inr,
  true-false,
}
use ultramem.Prelude.Result.{ok}
use ultramem.World.{World, Env, Keeps, bind-Keeps}
use ultramem.Db.Rows.{MemoryRow}
use ultramem.Db.Statement.{statement-collections, query-ok, query-tables, query-collections}
use ultramem.Db.Memories.{owned, get_memory, delete_memory}

module _ {F V : Type 0} (env : Env) where
  pub delete_memory-collections :
      (id tag : Text) → Keeps {F = F} {V = V} (λ w. w.collections) (delete_memory env id tag)
  unfolding delete_memory
  delete_memory-collections id tag =
      bind-Keeps (λ w. w.collections) _ _
        (λ w. statement-collections env (codes "delete_memory (evidence)") _ w)
        (λ a w. statement-collections env (codes "delete_memory") _ w)

  pub get_memory-ok :
      (id tag : Text) (w : World F V) {o : Option (MemoryRow F)}
      → (get_memory env id tag w).0 ≡ ok o
      → o ≡ find (owned id tag) w.tables.memories
  unfolding get_memory
  get_memory-ok id tag w h =
      query-ok env (codes "get_memory") (λ t. find (owned id tag) t.memories) w h

  pub get_memory-tables :
      (id tag : Text) → Keeps {F = F} {V = V} (λ w. w.tables) (get_memory env id tag)
  unfolding get_memory
  get_memory-tables id tag w =
      query-tables env (codes "get_memory") (λ t. find (owned id tag) t.memories) w

  pub get_memory-collections :
      (id tag : Text) → Keeps {F = F} {V = V} (λ w. w.collections) (get_memory env id tag)
  unfolding get_memory
  get_memory-collections id tag w =
      query-collections env (codes "get_memory") (λ t. find (owned id tag) t.memories) w

pub find-none : {A : Type 0} (p : A → Bool) (xs : List A) → any p xs ≡ false → find p xs ≡ none
find-none p [] h = refl
find-none p (x ∷ xs) h = elim (Bool-cases (p x)) [
  | inl e ↦ absurd (true-false (rw e) h)
  | inr e ↦ rw e (find-none p xs (rw e at h))
]
