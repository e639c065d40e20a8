-- ===== src/Prelude/Keyed.antt =====
-- Tables with a PRIMARY KEY: rows found by their key, updates of the row of a key, and relations
-- that hold between a table and its later contents.
use Prim.Native.Nat.{ℕ, zero, suc, ◌+◌}
use mathlib.Core.Path.{◌≡◌, refl, sym, subst, ap}
use mathlib.Core.Logic.{inl, inr}
use mathlib.Core.Bool.{Bool, true, false}
use mathlib.Core.Option.{none, some}
use mathlib.Core.List.{List, [], ◌∷◌, ◌++◌}
use native.Mathlib.Omega.{arith}
use mathlib.Core.Bool.{◌&&◌}
use estudio_polymind_llm_orc.Prelude.Tests.{◌==◌, ==→≡, ==_refl, Bool-cases}
use estudio_polymind_llm_orc.Prelude.Rows.{
  All-append, find-eq-some, find, select, update, any, take, sum_of, All,
}

-- Every row of `xs` has a later row in `ys`, in order; rows may have been added.
abbrev pub Related {ℓ} : {A : Type ℓ} → (A → A → Type 0) → List A → List A → Type 0
Related R [] ys = Unit
Related R (x ∷ xs) [] = ⊥
Related R (x ∷ xs) (y ∷ ys) = R x y × Related R xs ys

module _ {ℓ} {A : Type ℓ} (R : A → A → Type 0) where
  pub Related-refl : ((x : A) → R x x) → (xs : List A) → Related R xs xs
  Related-refl r [] = tt
  Related-refl r (x ∷ xs) = (r x, Related-refl r xs)

  pub Related-trans :
      ((x y z : A) → R x y → R y z → R x z)
      → (xs ys zs : List A) → Related R xs ys
      → Related R ys zs
      → Related R xs zs
  Related-trans t [] ys zs h k = tt
  Related-trans t (x ∷ xs) [] zs h k = absurd h
  Related-trans t (x ∷ xs) (y ∷ ys) [] h k = absurd k
  Related-trans t (x ∷ xs) (y ∷ ys) (z ∷ zs) h k =
      (t x y z h.0 k.0, Related-trans t xs ys zs h.1 k.1)

  pub Related-append : ((x : A) → R x x) → (xs ys : List A) → Related R xs (xs ++ ys)
  Related-append r [] ys = tt
  Related-append r (x ∷ xs) ys = (r x, Related-append r xs ys)

  -- an UPDATE relates each row that it changes
  pub Related-update :
      (p : A → Bool) (f : A → A) (xs : List A)
      → ((x : A) → R x x)
      → All (λ x. p x ≡ true → R x (f x)) xs
      → Related R xs (update p f xs)
  Related-update p f [] r h = tt
  Related-update p f (x ∷ xs) r h = elim (Bool-cases (p x)) [
    | inl e ↦ rw e (h.0 e, Related-update p f xs r h.1)
    | inr e ↦ rw e (r x, Related-update p f xs r h.1)
  ]

module _ {ℓ} {A : Type ℓ} (key : A → ℕ) where
  -- no key stands twice
  abbrev pub Unique : List A → Type 0
  Unique [] = Unit
  Unique (x ∷ xs) = All (λ y. (key y == key x) ≡ false) xs × Unique xs

  -- every row of the key `k` has `P`
  abbrev pub At {κ} : ℕ → (A → Type κ) → List A → Type κ
  At k P = All (λ x. (key x == k) ≡ true → P x)

module _ {ℓ κ μ} {A : Type ℓ} (P : A → Type κ) (Q : A → Type μ) where
  pub All-map : ((x : A) → P x → Q x) → (xs : List A) → All P xs → All Q xs
  All-map f [] h = tt
  All-map f (x ∷ xs) h = (f x h.0, All-map f xs h.1)

  pub All-both : (xs : List A) → All P xs → All Q xs → All (λ x. P x × Q x) xs
  All-both [] h k = tt
  All-both (x ∷ xs) h k = ((h.0, k.0), All-both xs h.1 k.1)

module _ {ℓ κ} {A : Type ℓ} (P : A → Type κ) where
  pub All-update :
      (p : A → Bool) (f : A → A)
      → ((x : A) → P x → P (f x))
      → (xs : List A) → All P xs
      → All P (update p f xs)
  All-update p f k [] h = tt
  All-update p f k (x ∷ xs) h = elim (Bool-cases (p x)) [
    | inl e ↦ rw e (k x h.0, All-update p f k xs h.1)
    | inr e ↦ rw e (h.0, All-update p f k xs h.1)
  ]

  -- the row that a SELECT returns has what all rows have
  pub All-find : (p : A → Bool) (xs : List A) {x : A} → All P xs → find p xs ≡ some x → P x
  All-find p [] h e = cc
  All-find p (y ∷ xs) {x} h e = elim (Bool-cases (p y)) [
    | inl t ↦ subst P (ground arith) h.0
    | inr t ↦ All-find p xs {x = x} h.1 (ground arith)
  ]

  -- the rows that a SELECT returns meet its condition
  pub All-select-true :
      (p : A → Bool) (xs : List A) → All (λ x. p x ≡ true → P x) xs → All P (select p xs)
  All-select-true p [] h = tt
  All-select-true p (x ∷ xs) h = elim (Bool-cases (p x)) [
    | inl e ↦ rw e (h.0 e, All-select-true p xs h.1)
    | inr e ↦ rw e (All-select-true p xs h.1)
  ]

  pub All-take : (n : ℕ) (xs : List A) → All P xs → All P (take n xs)
  All-take zero xs h = tt
  All-take (suc n) [] h = tt
  All-take (suc n) (x ∷ xs) h = (h.0, All-take n xs h.1)

  pub All-select : (p : A → Bool) (xs : List A) → All P xs → All P (select p xs)
  All-select p [] h = tt
  All-select p (x ∷ xs) h = elim (Bool-cases (p x)) [
    | inl e ↦ rw e (h.0, All-select p xs h.1)
    | inr e ↦ rw e (All-select p xs h.1)
  ]

module _ {ℓ} {A : Type ℓ} (key : A → ℕ) where
  All-key-update :
      (k : ℕ) (p : A → Bool) (f : A → A) (xs : List A)
      → ((x : A) → key (f x) ≡ key x)
      → All (λ y. (key y == k) ≡ false) xs
      → All (λ y. (key y == k) ≡ false) (update p f xs)
  All-key-update k p f xs same h =
      All-update (λ y. (key y == k) ≡ false) p f (λ x e. rw (same x) e) xs h

  -- an UPDATE that leaves the key alone keeps the keys distinct
  pub Unique-update :
      (p : A → Bool) (f : A → A) (xs : List A)
      → ((x : A) → key (f x) ≡ key x)
      → Unique key xs
      → Unique key (update p f xs)
  Unique-update p f [] same h = tt
  Unique-update p f (x ∷ xs) same h = elim (Bool-cases (p x)) [
    | inl e ↦ rw (e, same x) (All-key-update (key x) p f xs same h.0, Unique-update p f xs same h.1)
    | inr e ↦ rw e (All-key-update (key x) p f xs same h.0, Unique-update p f xs same h.1)
  ]

  -- a row that a SELECT returns is the only one of its key
  pub find-At :
      (p : A → Bool) (xs : List A) {x : A}
      → Unique key xs
      → find p xs ≡ some x
      → At key (key x) (λ y. y ≡ x) xs
  find-At p [] u e = tt
  find-At p (y ∷ xs) {x} u e = elim (Bool-cases (p y)) [
    | inl t ↦
        let y≡x : y ≡ x = ground arith in
        (
          λ _. y≡x,
          All-map _ _ (λ z n m. cc (subst (λ k. (key z == k) ≡ true) (ap key (sym y≡x)) m, n)) xs
              u.0,
        )
    | inr t ↦
        let rest : find p xs ≡ some x = ground arith in
        (
          λ m. absurd (let c : false ≡ true = cc (All-find _ p xs u.0 rest, same_key y x m) in cc),
          find-At p xs {x = x} u.1 rest,
        )
  ]
    where
      same_key : (y x : A) → (key y == key x) ≡ true → (key x == key y) ≡ true
      same_key y x m = rw (==→≡ (key y) (key x) m) (==_refl (key x))

  -- after an UPDATE of the rows of a key
  pub At-update_self {κ} :
      (P : A → Type κ) (k : ℕ) (f : A → A) (xs : List A)
      → ((x : A) → key (f x) ≡ key x)
      → At key k (λ x. P (f x)) xs
      → At key k P (update (λ x. key x == k) f xs)
  At-update_self P k f [] same h = tt
  At-update_self P k f (x ∷ xs) same h = elim (Bool-cases (key x == k)) [
    | inl e ↦ rw e ((λ _. h.0 e), At-update_self P k f xs same h.1)
    | inr e ↦ rw e ((λ m. cc), At-update_self P k f xs same h.1)
  ]

  -- after an UPDATE of the rows of another key
  pub At-update_other {κ} :
      (P : A → Type κ) (k j : ℕ) (f : A → A) (xs : List A)
      → ((x : A) → key (f x) ≡ key x)
      → (k == j) ≡ false
      → At key k P xs
      → At key k P (update (λ x. key x == j) f xs)
  At-update_other P k j f [] same d h = tt
  At-update_other P k j f (x ∷ xs) same d h = elim (Bool-cases (key x == j)) [
    | inl e ↦ rw e ((λ m. absurd (apart e m)), At-update_other P k j f xs same d h.1)
    | inr e ↦ rw e (h.0, At-update_other P k j f xs same d h.1)
  ]
    where
      apart : (key x == j) ≡ true → (key (f x) == k) ≡ true → ⊥
      apart e m = ground (arith, same x)

  -- after any UPDATE that keeps the property
  pub At-update {κ} :
      (P : A → Type κ) (k : ℕ) (p : A → Bool) (f : A → A) (xs : List A)
      → ((x : A) → key (f x) ≡ key x)
      → ((x : A) → P x → P (f x))
      → At key k P xs
      → At key k P (update p f xs)
  At-update P k p f xs same keep h =
      All-update (λ x. (key x == k) ≡ true → P x) p f
        (λ x i m. keep x (i (subst (λ j. (j == k) ≡ true) (same x) m))) xs h

  -- the same for a SELECT by the key
  pub find_by_key-At :
      (k : ℕ) (xs : List A) {x : A}
      → Unique key xs
      → find (λ y. key y == k) xs ≡ some x
      → At key k (λ y. y ≡ x) xs
  find_by_key-At k xs {x} u e =
      let same : key x ≡ k = ==→≡ (key x) k (find-eq-some (λ y. key y == k) xs e) in
      subst (λ j. At key j (λ y. y ≡ x) xs) same (find-At (λ y. key y == k) xs u e)

  -- no row of other keys has the key `k`
  any-key-eq-false :
      (k : ℕ) (zs : List A) → All (λ z. (key z == k) ≡ false) zs → any (λ x. k == key x) zs ≡ false
  any-key-eq-false k [] h = refl
  any-key-eq-false k (z ∷ zs) h = ground (arith, any-key-eq-false k zs h.1)

  select-head :
      (p : A → Bool) (y : A) (ys : List A)
      → All (λ z. (key z == key y) ≡ false) ys
      → any (λ x. key y == key x) (select p (y ∷ ys)) ≡ true
      → p y ≡ true
  select-head p y ys u m =
      ground (arith, any-key-eq-false (key y) (select p ys) (All-select _ p ys u))

  select-tail :
      (p : A → Bool) (y : A) (ys : List A) (r : A)
      → (key r == key y) ≡ false
      → any (λ x. key r == key x) (select p (y ∷ ys)) ≡ true
      → any (λ x. key r == key x) (select p ys) ≡ true
  select-tail p y ys r d m = ground arith

  -- the rows whose keys a SELECT returned meet its condition
  pub select-At :
      (p : A → Bool) (xs : List A)
      → Unique key xs
      → All (λ r. any (λ x. key r == key x) (select p xs) ≡ true → p r ≡ true) xs
  select-At p [] u = tt
  select-At p (y ∷ ys) u = (
    select-head p y ys u.0,
    All-map _ _ (λ r h m. h.1 (select-tail p y ys r h.0 m)) ys
        (All-both _ _ ys u.0 (select-At p ys u.1)),
  )

  -- a LIMIT keeps keys out
  pub any-take :
      (k n : ℕ) (zs : List A)
      → any (λ x. k == key x) (take n zs) ≡ true
      → any (λ x. k == key x) zs ≡ true
  any-take k zero [] h = h
  any-take k (suc n) [] h = h
  any-take k zero (z ∷ zs) h = cc
  any-take k (suc n) (z ∷ zs) h = elim (Bool-cases (k == key z)) [
    | inl e ↦ rw e
    | inr e ↦ rw e (any-take k n zs (ground (arith, e)))
  ]

  not-sym : (a b : ℕ) → (a == b) ≡ false → (b == a) ≡ true → ⊥
  not-sym a b d m = ground arith

  -- every row is the only one of its key
  pub Unique-self : (xs : List A) → Unique key xs → All (λ x. At key (key x) (λ y. y ≡ x) xs) xs
  Unique-self [] u = tt
  Unique-self (x ∷ xs) u = (
    ((λ _. refl), All-map _ _ (λ y d m. cc) xs u.0),
    All-map _ _ (λ r h. ((λ m. absurd (not-sym (key r) (key x) h.0 m)), h.1)) xs
        (All-both _ _ xs u.0 (Unique-self xs u.1)),
  )

  pub Unique-select : (p : A → Bool) (xs : List A) → Unique key xs → Unique key (select p xs)
  Unique-select p [] u = tt
  Unique-select p (x ∷ xs) u = elim (Bool-cases (p x)) [
    | inl e ↦ rw e (All-select _ p xs u.0, Unique-select p xs u.1)
    | inr e ↦ rw e (Unique-select p xs u.1)
  ]

  key_apart : (a b : ℕ) → (a == b) ≡ false → (b == a) ≡ false
  key_apart a b d = ground arith

  -- an INSERT under the PRIMARY KEY constraint
  pub Unique-append :
      (xs : List A) (y : A)
      → Unique key xs
      → All (λ x. (key x == key y) ≡ false) xs
      → Unique key (xs ++ y ∷ [])
  Unique-append [] y u h = (tt, tt)
  Unique-append (x ∷ xs) y u h = (
    All-append (λ z. (key z == key x) ≡ false) xs (y ∷ []) u.0 (key_apart (key x) (key y) h.0, tt),
    Unique-append xs y u.1 h.1,
  )

module _ {ℓ} {A : Type ℓ} where
  -- a NOT EXISTS holds of every row
  pub any-eq-false : (p : A → Bool) (xs : List A) → any p xs ≡ false → All (λ x. p x ≡ false) xs
  any-eq-false p [] h = tt
  any-eq-false p (x ∷ xs) h = (ground arith, any-eq-false p xs (ground arith))

-- A row found by a condition that the relation keeps has a later row, found by the same condition.
pub find-Related {ℓ} :
    {A : Type ℓ} (R : A → A → Type 0) (p : A → Bool)
    → ((x y : A) → R x y → p y ≡ p x)
    → (xs ys : List A) {x : A} → Related R xs ys
    → find p xs ≡ some x
    → (y : A) × (find p ys ≡ some y) × R x y
find-Related R p same [] ys h e = cc
find-Related R p same (z ∷ xs) [] h e = absurd h
find-Related R p same (z ∷ xs) (y ∷ ys) {x} h e = elim (Bool-cases (p z)) [
  | inl c ↦ (y, (rw (same z y h.0) (rw c refl)), subst (λ w. R w y) (cc) h.0)
  | inr c ↦
      let (w, f, r) = find-Related R p same xs ys h.1 (cc) in (w, (rw (same z y h.0) (rw c f)), r)
]

module _ {ℓ} {A : Type ℓ} where
  pub select-append :
      (p : A → Bool) (xs ys : List A) → select p (xs ++ ys) ≡ select p xs ++ select p ys
  select-append p [] ys = refl
  select-append p (x ∷ xs) ys = elim (Bool-cases (p x)) [
    | inl c ↦ rw c (ap (λ zs. x ∷ zs) (select-append p xs ys))
    | inr c ↦ rw c (select-append p xs ys)
  ]

  pub sum_of-append : (f : A → ℕ) (xs ys : List A) → sum_of f (xs ++ ys) ≡ sum_of f xs + sum_of f ys
  sum_of-append f [] ys = omega arith
  sum_of-append f (x ∷ xs) ys = omega (arith, sum_of-append f xs ys)

  -- a condition that finds a row with another test finds one without it
  pub find-weaker :
      (p q : A → Bool) (xs : List A) {x : A}
      → find (λ r. p r && q r) xs ≡ some x
      → (y : A) × (find p xs ≡ some y)
  find-weaker p q [] h = cc
  find-weaker p q (z ∷ xs) {x} h = elim (Bool-cases (p z)) [
    | inl c ↦ (z, rw c refl)
    | inr c ↦ let (y, e) = find-weaker p q xs {x = x} (cc) in (y, rw c e)
  ]

  -- A row that no earlier row shadows is found.
  pub find-append :
      (p : A → Bool) (xs : List A) (y : A)
      → find p xs ≡ none
      → p y ≡ true
      → find p (xs ++ y ∷ []) ≡ some y
  find-append p [] y n h = rw h refl
  find-append p (x ∷ xs) y n h = elim (Bool-cases (p x)) [
    | inl c ↦ ground arith
    | inr c ↦ rw c (find-append p xs y (cc) h)
  ]

  -- The row that a condition finds, after an UPDATE that keeps the condition and names the row.
  pub find-update :
      (p q : A → Bool) (f : A → A) (xs : List A) {x : A}
      → ((z : A) → p (f z) ≡ p z)
      → ((z : A) → p z ≡ true → q z ≡ true)
      → find p xs ≡ some x
      → find p (update q f xs) ≡ some (f x)
  find-update p q f [] same named e = cc
  find-update p q f (z ∷ xs) {x} same named e = elim (Bool-cases (p z)) [
    | inl c ↦ rw (named z c) (rw (same z) (rw c (ap (λ w. some (f w)) (cc))))
    | inr c ↦ elim (Bool-cases (q z)) [
      | inl d ↦ rw d (rw (same z) (rw c (find-update p q f xs same named (cc))))
      | inr d ↦ rw d (rw c (find-update p q f xs same named (cc)))
    ]
  ]
