-- ===== src/Digestion/Rounds.antt =====
-- The loops of `reduce_group` (documents/digestion/planning.py) end: each round of `while True` leaves
-- fewer stages than it takes.
use estudio_polymind_llm_orc.Prelude.{
  ℕ, zero, suc, ◌⊎◌, ◌+◌, ◌*◌, ◌-◌, ◌≤◌, ◌≡◌, ◌≢◌, refl, ap, ◌∙◌, ==→≡, true, false, Bool-cases,
  Option-cases, none, some, inl, inr, List, [], ◌∷◌, ◌==◌, leb, length, drop, min, max, arith,
}
use estudio_polymind_llm_orc.Jobs.Models.{Uuid}
use estudio_polymind_llm_orc.Digestion.Models.{StructuralUnit, Codec, Category}
use estudio_polymind_llm_orc.Digestion.Attempt.{
  Attempt, returns, raises, crashes, exhausted, unless, ◌>>=◌, >>=_inv,
}
use estudio_polymind_llm_orc.Digestion.Reduction.{
  Table, lookup, fold_lookup, over_group, Reducing, Frame, groups, within_steps, reduce_at,
  reduce_one, reduce_all, single, rounds, as_output, reduce_within, reduce_group, least_capacity,
}

pub length-drop : (n : ℕ) (xs : List Uuid) → length (drop n xs) ≡ length xs - n
length-drop zero xs = omega arith
length-drop (suc n) [] = omega arith
length-drop (suc n) (x ∷ xs) = omega (arith, length-drop n xs)

-- groups of two or more are at most half as many as the ids, rounded up
length-groups :
    (capacity fuel : ℕ) (xs : List Uuid)
    → 2 ≤ capacity
    → length (groups capacity fuel xs) * 2 ≤ length xs + 1
unfolding groups
length-groups capacity fuel [] h = omega arith
length-groups capacity zero (x ∷ xs) h = omega arith
length-groups capacity (suc fuel) (x ∷ xs) h = omega (
  arith,
  h,
  length-drop capacity (x ∷ xs),
  length-groups capacity fuel (drop capacity (x ∷ xs)) h,
)

groups-zero : (capacity : ℕ) (xs : List Uuid) → groups capacity 0 xs ≡ []
unfolding groups
groups-zero capacity [] = refl
groups-zero capacity (x ∷ xs) = refl

-- A computation that does not end for want of fuel.
abbrev pub Ends : {A : Type 0} → Attempt A → Type 0
Ends m = m ≢ exhausted

>>=-Ends :
    {A B : Type 0} (m : Attempt A) (f : A → Attempt B)
    → Ends m
    → ((a : A) → m ≡ returns a → Ends (f a))
    → Ends (m >>= f)
>>=-Ends (returns a) f h k = k a refl
>>=-Ends (raises e) f h k = λ x. cc
>>=-Ends crashes f h k = λ x. cc
>>=-Ends exhausted f h k = absurd (h refl)

unless-Ends : {A : Type 0} (b : _) (e : Category) (m : Attempt A) → Ends m → Ends (unless b e m)
unless-Ends true e m h = h
unless-Ends false e m h = λ x. cc

lookup-Ends : (t : Table) (k : Uuid) → Ends (lookup t k)
unfolding lookup
lookup-Ends t k = λ x. ground arith

fold_lookup-Ends :
    (f : ℕ → ℕ → ℕ) (t : Table) (n : ℕ) (ks : List Uuid) → Ends (fold_lookup f t n ks)
unfolding fold_lookup
fold_lookup-Ends f t n [] = λ x. cc
fold_lookup-Ends f t n (k ∷ ks) =
    >>=-Ends (lookup t k) _ (lookup-Ends t k) (λ m _. fold_lookup-Ends f t (f n m) ks)

over_group-Ends : (f : ℕ → ℕ → ℕ) (t : Table) (ks : List Uuid) → Ends (over_group f t ks)
unfolding over_group
over_group-Ends f t [] = λ x. cc
over_group-Ends f t (k ∷ ks) =
    >>=-Ends (lookup t k) _ (lookup-Ends t k) (λ n _. fold_lookup-Ends f t n ks)

module _ (c : Codec) (f : Frame) (unit : StructuralUnit) where
  within_steps-Ends : (n : _) (s : Reducing) → Ends (within_steps c f unit n s)
  unfolding within_steps
  within_steps-Ends n s = unless-Ends _ _ (returns _) (λ x. cc)

  reduce_at-Ends :
      (overhead : ℕ) (group : List Uuid) (s : Reducing) (level : ℕ)
      → Ends (reduce_at c f unit overhead group s level)
  unfolding reduce_at
  reduce_at-Ends overhead group s level = unless-Ends _ _ _ (
      >>=-Ends (over_group min s.positions group) _ (over_group-Ends min s.positions group)
        (λ p _. within_steps-Ends _ _))

  reduce_one-Ends :
      (overhead : ℕ) (group : List Uuid) (s : Reducing)
      → Ends (reduce_one c f unit overhead group s)
  unfolding reduce_one
  reduce_one-Ends overhead group s =
      >>=-Ends (over_group max s.levels group) _ (over_group-Ends max s.levels group)
        (λ n _. reduce_at-Ends overhead group s (suc n))

  reduce_all-Ends :
      (overhead : ℕ) (gs : List (List Uuid)) (s : Reducing)
      → Ends (reduce_all c f unit overhead gs s)
  unfolding reduce_all
  reduce_all-Ends overhead [] s = λ x. cc
  reduce_all-Ends overhead (g ∷ gs) s =
      >>=-Ends (reduce_one c f unit overhead g s) _ (reduce_one-Ends overhead g s) (λ (key, s') _.
        >>=-Ends (reduce_all c f unit overhead gs s') _ (reduce_all-Ends overhead gs s')
          (λ r _ x. cc))

  -- every group gives one stage
  pub length-reduce_all :
      (overhead : ℕ) (gs : List (List Uuid)) (s s' : Reducing) (ks : List Uuid)
      → reduce_all c f unit overhead gs s ≡ returns (ks, s')
      → length ks ≡ length gs
  unfolding reduce_all
  length-reduce_all overhead [] s s' ks h = cc
  length-reduce_all overhead (g ∷ gs) s s' ks h =
      let ((key, t), e, k) = >>=_inv (reduce_one c f unit overhead g s) _ h in
      let ((rest, t'), e', k') = >>=_inv (reduce_all c f unit overhead gs t) _ k in
      let n = length-reduce_all overhead gs t t' rest e' in
      let same : ks ≡ key ∷ rest = cc in rw same (ap suc n)

  single-none : (ks : List Uuid) → single c f unit ks ≡ none → length ks ≢ 1
  single-none [] h = λ x. omega (arith, x)
  single-none (k ∷ []) h = cc
  single-none (k ∷ j ∷ ks) h = λ x. omega (arith, x)

  some_group :
      (capacity : ℕ) (ks : List Uuid) → 1 ≤ length ks → 1 ≤ length (groups capacity (length ks) ks)
  unfolding groups
  some_group capacity [] h = absurd (omega (arith, h))
  some_group capacity (k ∷ ks) h = omega arith

  one_group :
      (capacity : ℕ) (ks : List Uuid) → length ks ≡ 1 → length (groups capacity (length ks) ks) ≡ 1
  unfolding groups
  one_group capacity [] h = absurd (omega (arith, h))
  one_group capacity (k ∷ []) h = rw (groups-zero capacity (drop capacity (k ∷ []))) refl
  one_group capacity (k ∷ j ∷ ks) h = absurd (omega (arith, h))

  rounds-Ends :
      (fuel capacity overhead : ℕ) (current : List Uuid) (s : Reducing)
      → 1 ≤ length current
      → length current ≤ fuel
      → (2 ≤ capacity) ⊎ (length current ≡ 1)
      → Ends (rounds c f unit fuel capacity overhead current s)
  unfolding rounds
  rounds-Ends zero capacity overhead current s n m d = absurd (omega (arith, n, m))
  rounds-Ends (suc fuel) capacity overhead current s n m d =
      >>=-Ends (reduce_all c f unit overhead (groups capacity (length current) current) s) _
        (reduce_all-Ends overhead _ s)
        (λ (following, t) e. elim (Option-cases (single c f unit following)) [
          | inr (k, o) ↦ rw o (λ x. cc)
          | inl o ↦
              let l = length-reduce_all overhead _ s t following e in
              let many = some_group capacity current n in
              let apart : length following ≢ 1 = single-none following o in
              rw o (elim d [
                | inl two ↦
                    let half = length-groups capacity (length current) current two in
                    rounds-Ends fuel capacity overhead following t (omega (arith, l, many))
                      (omega (arith, l, many, apart, half, m)) (inl two)
                | inr one ↦ absurd (apart (l ∙ one_group capacity current one))
              ])
        ])

  as_output-Ends : (r : Uuid × Reducing) → Ends (as_output c f unit r)
  as_output-Ends (k, s) = λ x. cc

  -- a capacity that is not refused is enough for two, or there is one child
  enough :
      (b : _) (capacity : ℕ) (children : List Uuid)
      → 1 ≤ length children
      → leb (least_capacity c f unit b children) capacity ≡ true
      → (2 ≤ capacity) ⊎ (length children ≡ 1)
  unfolding least_capacity
  enough none capacity children n h = inl (ground arith)
  enough (some b) capacity children n h = elim (Bool-cases (length children == 1)) [
    | inl e ↦ inr (==→≡ (length children) 1 e)
    | inr e ↦ inl (ground arith)
  ]

  reduce_within-Ends :
      (w : ℕ × ℕ) (children : List Uuid) (s : Reducing)
      → 1 ≤ length children
      → Ends (reduce_within c f unit w children s)
  unfolding reduce_within
  reduce_within-Ends (capacity, overhead) children s n =
      elim (Bool-cases
        (leb (least_capacity c f unit f.profile.managed_input_budget children) capacity)) [
          | inr e ↦ rw e (λ x. cc)
          | inl e ↦
              let d = enough f.profile.managed_input_budget capacity children n e in
              rw e (
                >>=-Ends (rounds c f unit (length children) capacity overhead children s) _
                  (rounds-Ends (length children) capacity overhead children s n (omega arith) d)
                  (λ r _. as_output-Ends r))
        ]

-- `while True` of `reduce_group` ends for every profile, every group of children and every dictionary:
-- as many rounds as there are children are enough.
pub reduce_group-ends :
    (c : Codec) (f : Frame) (unit : StructuralUnit) (children : List Uuid) (s : Reducing)
    → reduce_group c f unit children s ≢ exhausted
unfolding reduce_group
reduce_group-ends c f unit [] s = λ x. cc
reduce_group-ends c f unit (k ∷ ks) s = reduce_within-Ends c f unit _ (k ∷ ks) s (omega arith)
