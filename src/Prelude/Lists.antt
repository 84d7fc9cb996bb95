-- ===== src/Prelude/Lists.antt =====
-- Lists over native numbers, and predicates on them.
use Prim.Native.Nat.{ℕ, zero, suc, ◌+◌}
use mathlib.Core.Path.{◌≡◌, refl, ap}
use mathlib.Core.Bool.{Bool, true, false}
use mathlib.Core.List.{List, [], ◌∷◌, ◌++◌}
use mathlib.Core.Option.{Option, none, some}
use native.Mathlib.Omega.{arith}
use nexum_backend.Prelude.Tests.{if◌then◌else◌}

module _ {ℓ} {A : Type ℓ} where
  abbrev pub length : List A → ℕ
  length [] = 0
  length (x ∷ xs) = suc (length xs)

  abbrev pub get_elem? : List A → ℕ → Option A
  get_elem? [] i = none
  get_elem? (x ∷ xs) zero = some x
  get_elem? (x ∷ xs) (suc i) = get_elem? xs i

  pub length-append : (xs ys : List A) → length (xs ++ ys) ≡ length xs + length ys
  length-append [] ys = omega arith
  length-append (x ∷ xs) ys = omega (arith, length-append xs ys)

  abbrev pub replicate : ℕ → A → List A
  replicate zero a = []
  replicate (suc n) a = a ∷ replicate n a

  pub length-replicate : (n : ℕ) (a : A) → length (replicate n a) ≡ n
  length-replicate zero a = refl
  length-replicate (suc n) a = ap suc (length-replicate n a)

  abbrev pub is_empty : List A → Bool
  is_empty [] = true
  is_empty (x ∷ xs) = false

  -- The first element that passes a test: `scalars().first()` of a filtered query.
  abbrev pub find? : (A → Bool) → List A → Option A
  find? p [] = none
  find? p (x ∷ xs) = if p x then some x else find? p xs

  pub find?-append :
      (p : A → Bool) (xs ys : List A) (a : A) → find? p xs ≡ some a → find? p (xs ++ ys) ≡ some a
  find?-append p [] ys a h = cc
  find?-append p (x ∷ xs) ys a h = ground (arith, find?-append p xs ys a)

  pub find?-snoc :
      (p : A → Bool) (xs : List A) (a : A)
      → find? p xs ≡ none
      → p a ≡ true
      → find? p (xs ++ a ∷ []) ≡ some a
  find?-snoc p [] a h q = ground (arith, q)
  find?-snoc p (x ∷ xs) a h q = ground (arith, find?-snoc p xs a)

  -- A change of the rows that pass a test.
  abbrev pub update? : (A → Bool) → (A → A) → List A → List A
  update? p f [] = []
  update? p f (x ∷ xs) = (if p x then f x else x) ∷ update? p f xs

  -- The rows that pass a test: the `WHERE` of a query.
  abbrev pub where_ : (A → Bool) → List A → List A
  where_ p [] = []
  where_ p (x ∷ xs) = let rest = where_ p xs in if p x then x ∷ rest else rest

module _ {ℓ κ} {A : Type ℓ} where
  abbrev pub All : (A → Type κ) → List A → Type κ
  All P [] = Unit
  All P (x ∷ xs) = P x × All P xs

  pub All-append : (P : A → Type κ) (xs ys : List A) → All P xs → All P ys → All P (xs ++ ys)
  All-append P [] ys hx hy = hy
  All-append P (x ∷ xs) ys hx hy = (hx.0, All-append P xs ys hx.1 hy)

module _ {ℓ} {A : Type ℓ} where
  pub find?-none-All : (p : A → Bool) (xs : List A) → find? p xs ≡ none → All (λ x. p x ≡ false) xs
  find?-none-All p [] h = tt
  find?-none-All p (x ∷ xs) h = (ground (arith, h), find?-none-All p xs (ground (arith, h)))

module _ {ℓ} {A : Type ℓ} where
  -- What a query finds passes its test, and is the first of the rows that do.
  pub find?-passes : (p : A → Bool) (xs : List A) (a : A) → find? p xs ≡ some a → p a ≡ true
  find?-passes p [] a h = cc
  find?-passes p (x ∷ xs) a h = ground (arith, h, find?-passes p xs a)

  pub where-first :
      (p : A → Bool) (xs rest : List A) (a : A) → where_ p xs ≡ a ∷ rest → find? p xs ≡ some a
  where-first p [] rest a h = cc
  where-first p (x ∷ xs) rest a h = ground (arith, h, where-first p xs rest a)
