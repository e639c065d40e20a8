-- ===== src/Prelude/Rows.antt =====
-- Tables as lists of rows: the SELECT, UPDATE and COUNT of the SQL text, by a Boolean condition.
use Prim.Native.Nat.{ℕ, zero, suc, ◌+◌, ◌≤◌, max}
use mathlib.Core.Path.{◌≡◌, refl, ap}
use mathlib.Core.Bool.{Bool, true, false, ◌&&◌, ◌||◌}
use mathlib.Core.Option.{Option, none, some}
use mathlib.Core.List.{List, [], ◌∷◌, ◌++◌}
use native.Mathlib.Omega.{arith}
use estudio_polymind_llm_orc.Prelude.Tests.{if◌then◌else◌}

module _ {ℓ} {A : Type ℓ} where
  abbrev pub length : List A → ℕ
  length [] = 0
  length (x ∷ xs) = suc (length xs)

  abbrev pub get_elem? : List A → ℕ → Option A
  get_elem? [] i = none
  get_elem? (x ∷ xs) zero = some x
  get_elem? (x ∷ xs) (suc i) = get_elem? xs i

  -- fetchone() of a SELECT: the first row that meets the condition
  abbrev pub find : (A → Bool) → List A → Option A
  find p [] = none
  find p (x ∷ xs) = if p x then some x else find p xs

  -- SELECT … WHERE
  abbrev pub select : (A → Bool) → List A → List A
  select p [] = []
  select p (x ∷ xs) = let rest = select p xs in if p x then x ∷ rest else rest

  -- UPDATE … WHERE
  abbrev pub update : (A → Bool) → (A → A) → List A → List A
  update p f [] = []
  update p f (x ∷ xs) = (if p x then f x else x) ∷ update p f xs

  -- SELECT COUNT(*) … WHERE, and sum(test(r) for r in rows)
  abbrev pub count : (A → Bool) → List A → ℕ
  count p [] = 0
  count p (x ∷ xs) = (if p x then 1 else 0) + count p xs

  abbrev pub sum_of : (A → ℕ) → List A → ℕ
  sum_of f [] = 0
  sum_of f (x ∷ xs) = f x + sum_of f xs

  -- SELECT MAX(column): NULL when no row is left
  abbrev pub max_of : (A → ℕ) → List A → Option ℕ
  max_of f [] = none
  max_of f (x ∷ xs) = elim (max_of f xs) [ none ↦ some (f x) | some m ↦ some (max (f x) m) ]

  abbrev pub any : (A → Bool) → List A → Bool
  any p [] = false
  any p (x ∷ xs) = p x || any p xs

  abbrev pub all : (A → Bool) → List A → Bool
  all p [] = true
  all p (x ∷ xs) = p x && all p xs

  abbrev pub take : ℕ → List A → List A
  take zero xs = []
  take (suc n) [] = []
  take (suc n) (x ∷ xs) = x ∷ take n xs

  abbrev pub drop : ℕ → List A → List A
  drop zero xs = xs
  drop (suc n) [] = []
  drop (suc n) (x ∷ xs) = drop n xs

  -- ORDER BY: a stable insertion sort by `before`
  pub insert_by : (A → A → Bool) → A → List A → List A
  insert_by before x [] = x ∷ []
  insert_by before x (y ∷ ys) =
      let rest = insert_by before x ys in if before y x then y ∷ rest else x ∷ y ∷ ys

  unfoldable pub sort_by : (A → A → Bool) → List A → List A
  unfolding insert_by
  sort_by before [] = []
  sort_by before (x ∷ xs) = insert_by before x (sort_by before xs)

  -- an ORDER BY keeps what stands in the rows
  any-insert_by :
      (p : A → Bool) (before : A → A → Bool) (x : A) (xs : List A)
      → any p (insert_by before x xs) ≡ p x || any p xs
  unfolding insert_by
  any-insert_by p before x [] = refl
  any-insert_by p before x (y ∷ ys) = ground (arith, any-insert_by p before x ys)

  pub any-sort_by :
      (p : A → Bool) (before : A → A → Bool) (xs : List A) → any p (sort_by before xs) ≡ any p xs
  unfolding sort_by
  any-sort_by p before [] = refl
  any-sort_by p before (x ∷ xs) =
      ground (arith, any-insert_by p before x (sort_by before xs), any-sort_by p before xs)

  pub any-append : (p : A → Bool) (xs ys : List A) → any p (xs ++ ys) ≡ any p xs || any p ys
  any-append p [] ys = refl
  any-append p (x ∷ xs) ys = ground (arith, any-append p xs ys)

  abbrev pub All {κ} : (A → Type κ) → List A → Type κ
  All P [] = Unit
  All P (x ∷ xs) = P x × All P xs

  pub length-append : (xs ys : List A) → length (xs ++ ys) ≡ length xs + length ys
  length-append [] ys = omega arith
  length-append (x ∷ xs) ys = omega (arith, length-append xs ys)

  pub All-append {κ} : (P : A → Type κ) (xs ys : List A) → All P xs → All P ys → All P (xs ++ ys)
  All-append P [] ys hx hy = hy
  All-append P (x ∷ xs) ys hx hy = (hx.0, All-append P xs ys hx.1 hy)

  All-insert_by {κ} :
      (P : A → Type κ) (before : A → A → Bool) (x : A) (xs : List A)
      → P x
      → All P xs
      → All P (insert_by before x xs)
  unfolding insert_by
  All-insert_by P before x [] h k = (h, tt)
  All-insert_by P before x (y ∷ ys) h k =
      All-if P (before y x) (y ∷ insert_by before x ys) (x ∷ y ∷ ys)
        (k.0, All-insert_by P before x ys h k.1) (h, k)
    where
      All-if :
          (P : A → Type κ) (b : Bool) (us vs : List A)
          → All P us
          → All P vs
          → All P (if b then us else vs)
      All-if P true us vs h k = h
      All-if P false us vs h k = k

  pub All-sort_by {κ} :
      (P : A → Type κ) (before : A → A → Bool) (xs : List A) → All P xs → All P (sort_by before xs)
  unfolding sort_by
  All-sort_by P before [] h = tt
  All-sort_by P before (x ∷ xs) h =
      All-insert_by P before x (sort_by before xs) h.0 (All-sort_by P before xs h.1)

  pub length-update : (p : A → Bool) (f : A → A) (xs : List A) → length (update p f xs) ≡ length xs
  length-update p f [] = refl
  length-update p f (x ∷ xs) = ap suc (length-update p f xs)

  pub length-take-le : (n : ℕ) (xs : List A) → length (take n xs) ≤ n
  length-take-le zero xs = omega arith
  length-take-le (suc n) [] = omega arith
  length-take-le (suc n) (x ∷ xs) = omega (arith, length-take-le n xs)

  pub length-select-le : (p : A → Bool) (xs : List A) → length (select p xs) ≤ length xs
  length-select-le p [] = omega arith
  length-select-le p (x ∷ xs) = ground (arith, length-select-le p xs)

  -- What a SELECT returns meets its condition.
  pub find-eq-some : (p : A → Bool) (xs : List A) {x : A} → find p xs ≡ some x → p x ≡ true
  find-eq-some p [] h = cc
  find-eq-some p (y ∷ xs) {x} h = ground (arith, find-eq-some p xs {x = x})

module _ {ℓ} {A : Type ℓ} where
  -- Two UPDATEs of the same columns are one.
  pub update-update :
      (p q : A → Bool) (f : A → A)
      → ((x : A) → p (f x) ≡ p x)
      → ((x : A) → f (f x) ≡ f x)
      → (xs : List A) → update p f (update q f xs) ≡ update (λ x. q x || p x) f xs
  update-update p q f same idem [] = refl
  update-update p q f same idem (x ∷ xs) =
      ground (arith, same x, idem x, update-update p q f same idem xs)

  -- An UPDATE of no row.
  pub update-none : (f : A → A) (xs : List A) → update (λ _. false) f xs ≡ xs
  update-none f [] = refl
  update-none f (x ∷ xs) = ap (λ ys. x ∷ ys) (update-none f xs)
