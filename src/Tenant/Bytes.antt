-- ===== src/Tenant/Bytes.antt =====
-- crates/ultramem-server/src/tenant.rs: the constant-time comparison of two byte slices.
use Prim.Native.Nat.{bit_or, bit_xor}
use ultramem.Prelude.{
  ℕ, zero, suc, ◌<◌, ◌==◌, ==_iff, ltb, length, All, Bool, true, false, ◌&&◌, List, [], ◌∷◌, ◌≡◌,
  refl, ◌↔◌, ap₂, Bool-cases, inl, inr, if◌then◌else◌, arith,
}

-- The loop over the zipped bytes: `diff |= x ^ y`.
unfoldable pub diff_bytes : ℕ → List ℕ → List ℕ → ℕ
diff_bytes diff [] ys = diff
diff_bytes diff (x ∷ xs) [] = diff
diff_bytes diff (x ∷ xs) (y ∷ ys) = diff_bytes (bit_or diff (bit_xor x y)) xs ys

unfoldable pub ct_eq : List ℕ → List ℕ → Bool
unfolding diff_bytes
ct_eq a b = if length a == length b then diff_bytes 0 a b == 0 else false

abbrev pub AreBytes : List ℕ → Type 0
AreBytes = All (λ c. c < 256)

-- Facts about two bytes, by evaluation at every pair.
every : (ℕ → Bool) → ℕ → Bool
every p zero = true
every p (suc bound) = if p bound then every p bound else false

every-holds : (p : ℕ → Bool) (bound x : ℕ) → every p bound ≡ true → x < bound → p x ≡ true
unfolding every
every-holds p zero x h below = elim below [ ]
every-holds p (suc bound) x h below = ground (arith, every-holds p bound x)

-- The two operations stay bytes, and are zero only where the loop wants it.
byte_facts : ℕ → ℕ → Bool
byte_facts x y =
    ltb (bit_xor x y) 256
    && ltb (bit_or x y) 256
    && (if bit_xor x y == 0 then x == y else true)
    && (if bit_or x y == 0 then (x == 0) && (y == 0) else true)

byte_table : every (λ x. every (byte_facts x) 256) 256 ≡ true
unfolding every byte_facts
byte_table = refl

xor_self_table : every (λ x. bit_or 0 (bit_xor x x) == 0) 256 ≡ true
unfolding every
xor_self_table = refl

facts_at : (x y : ℕ) → x < 256 → y < 256 → byte_facts x y ≡ true
facts_at x y p q =
    every-holds (byte_facts x) 256 y
      (every-holds (λ x. every (byte_facts x) 256) 256 x byte_table p) q

xor-zero : (x y : ℕ) → x < 256 → y < 256 → bit_xor x y ≡ 0 → x ≡ y
unfolding byte_facts
xor-zero x y p q h = ground (arith, facts_at x y p q)

xor_byte : (x y : ℕ) → x < 256 → y < 256 → bit_xor x y < 256
unfolding byte_facts
xor_byte x y p q = ground (arith, facts_at x y p q)

or_byte : (x y : ℕ) → x < 256 → y < 256 → bit_or x y < 256
unfolding byte_facts
or_byte x y p q = ground (arith, facts_at x y p q)

or-zero : (x y : ℕ) → x < 256 → y < 256 → bit_or x y ≡ 0 → (x ≡ 0) × (y ≡ 0)
unfolding byte_facts
or-zero x y p q h = ground (arith, facts_at x y p q)

xor_self : (x : ℕ) → x < 256 → bit_or 0 (bit_xor x x) ≡ 0
xor_self x p = (==_iff _ 0).0 (every-holds _ 256 x xor_self_table p)

-- A zero at the end of the loop: nothing was set before it, and the bytes agree.
diff_bytes-zero :
    (diff : ℕ) (a b : List ℕ)
    → diff < 256
    → AreBytes a
    → AreBytes b
    → length a ≡ length b
    → diff_bytes diff a b ≡ 0
    → (diff ≡ 0) × (a ≡ b)
unfolding diff_bytes
diff_bytes-zero diff [] [] d p q e h = (h, refl)
diff_bytes-zero diff [] (y ∷ ys) d p q e h = absurd (omega arith)
diff_bytes-zero diff (x ∷ xs) [] d p q e h = absurd (omega arith)
diff_bytes-zero diff (x ∷ xs) (y ∷ ys) d (p, ps) (q, qs) e h =
    let xor_small = xor_byte x y p q in
    let (now, rest) =
      diff_bytes-zero (bit_or diff (bit_xor x y)) xs ys (or_byte diff (bit_xor x y) d xor_small) ps
        qs (omega arith) h in
    let (first, same_byte) = or-zero diff (bit_xor x y) d xor_small now in
    (first, ap₂ ◌∷◌ (xor-zero x y p q same_byte) rest)

diff_bytes_self : (a : List ℕ) → AreBytes a → diff_bytes 0 a a ≡ 0
unfolding diff_bytes
diff_bytes_self [] p = refl
diff_bytes_self (x ∷ xs) (p, ps) = rw (xor_self x p) (diff_bytes_self xs ps)

-- On byte slices the constant-time comparison answers true exactly for equal slices.
pub ct_eq_iff : (a b : List ℕ) → AreBytes a → AreBytes b → (ct_eq a b ≡ true) ↔ (a ≡ b)
unfolding ct_eq
ct_eq_iff a b p q = (sound, λ e. rw (← e) complete)
  where
    sound : ct_eq a b ≡ true → a ≡ b
    sound h = elim (Bool-cases (length a == length b)) [
      | inl e ↦
          (diff_bytes-zero 0 a b (omega arith) p q ((==_iff _ _).0 e)
            ((==_iff _ 0).0 (rw e at h))).1
      | inr e ↦ cc (rw e at h)
    ]

    complete : ct_eq a a ≡ true
    complete = ground (arith, diff_bytes_self a p)
