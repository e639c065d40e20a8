-- ===== src/Digestion/Closed.antt =====
-- The walk of `make_digest` (documents/digestion/validation.py) over the claims ends, and what it has
-- seen is closed under the links of the claims.
use estudio_polymind_llm_orc.Prelude.{
  ℕ, zero, suc, ◌+◌, ◌≤◌, ◌≡◌, ◌≢◌, refl, ap, subst, true, false, ◌||◌, if◌then◌else◌, Bool-cases,
  Option-cases, inl, inr, some, List, [], ◌∷◌, ◌==◌, length, sum_of, All, All-map, arith, ==→≡,
  ==_refl, &&-eq-true,
}
use estudio_polymind_llm_orc.Digestion.Models.{Claim}
use estudio_polymind_llm_orc.Digestion.Sets.{Key, same_key, has_key}
use estudio_polymind_llm_orc.Digestion.Attempt.{returns, exhausted}
use estudio_polymind_llm_orc.Digestion.Structure.{extend}
use estudio_polymind_llm_orc.Digestion.Results.{lineage_of}
use estudio_polymind_llm_orc.Digestion.Graph.{Claims, claim_of, follow, rounds_of, walk_claims}

length-extend : (xs ys : List Key) → length (extend xs ys) ≡ length ys + length xs
unfolding extend
length-extend xs [] = omega arith
length-extend xs (y ∷ ys) = omega (arith, length-extend (y ∷ xs) ys)

-- the links of the claims that are not seen
abbrev left : List Key → Key × Claim → ℕ
left seen r = if has_key seen r.0 then 0 else length (lineage_of r.1)

left-le :
    (key : Key) (seen : List Key) (rows : Claims)
    → sum_of (left (key ∷ seen)) rows ≤ sum_of (left seen) rows
left-le key seen [] = omega arith
left-le key seen (r ∷ rows) = ground (arith, left-le key seen rows)

same_key→≡ : (a b : Key) → same_key a b ≡ true → a ≡ b
same_key→≡ (a, b) (c, d) h =
    let (x, y) = &&-eq-true (a == c) (b == d) h in cc (==→≡ a c x, ==→≡ b d y)

left-seen : (seen : List Key) (r : Key × Claim) → has_key seen r.0 ≡ true → left seen r ≡ 0
left-seen seen r h = rw h refl

left-fresh :
    (seen : List Key) (r : Key × Claim)
    → has_key seen r.0 ≡ false
    → left seen r ≡ length (lineage_of r.1)
left-fresh seen r h = rw h refl

same_key_swap : (a b : Key) → same_key a b ≡ true → same_key b a ≡ true
same_key_swap (a, b) (c, d) h = ground arith

left-visit :
    (key : Key) (seen : List Key) (rows : Claims) {k : Claim}
    → has_key seen key ≡ false
    → claim_of rows key ≡ some k
    → sum_of (left (key ∷ seen)) rows + length (lineage_of k) ≤ sum_of (left seen) rows
unfolding claim_of
left-visit key seen [] {k} n f = cc
left-visit key seen ((key', j) ∷ rows) {k} n f = elim (Bool-cases (same_key key' key)) [
  | inl e ↦
      let same : key' ≡ key = same_key→≡ key' key e in
      let at : j ≡ k = ground arith in
      let found : lineage_of j ≡ lineage_of k = ap (λ c. lineage_of c) at in
      let fresh = left-fresh seen (key', j) (cc) in
      let old = left-seen (key ∷ seen) (key', j) (ground (arith, same_key_swap key' key e)) in
      omega (arith, fresh, old, ap length found, left-le key seen rows)
  | inr e ↦
      let rest : claim_of rows key ≡ some k = ground arith in
      ground (arith, left-visit key seen rows {k = k} n rest)
]

follow-ends_from :
    (fuel : ℕ) (rows : Claims) (seen todo : List Key)
    → length todo + sum_of (left seen) rows ≤ fuel
    → follow fuel rows seen todo ≢ exhausted
unfolding follow
follow-ends_from fuel rows seen [] m = λ x. cc
follow-ends_from zero rows seen (key ∷ todo) m = absurd (omega (arith, m))
follow-ends_from (suc fuel) rows seen (key ∷ todo) m = elim (Bool-cases (has_key seen key)) [
  | inl e ↦ rw (follow, e) (follow-ends_from fuel rows seen todo (omega (arith, m)))
  | inr e ↦ elim (Option-cases (claim_of rows key)) [
    | inl f ↦ rw (follow, e, f) (λ x. cc)
    | inr (k, f) ↦
        rw (follow, e, f)
          (follow-ends_from fuel rows (key ∷ seen) (extend todo (lineage_of k)) (
            omega
              (arith, m, left-visit key seen rows {k = k} e f, length-extend todo (lineage_of k))))
  ]
]

-- The walk over the claims ends, for every dictionary of claims and every list of keys.
pub walk_claims-ends : (rows : Claims) (todo : List Key) → walk_claims rows todo ≢ exhausted
unfolding walk_claims
walk_claims-ends rows todo =
    follow-ends_from (rounds_of rows todo) rows [] (extend [] todo)
      (omega (arith, length-extend [] todo, left-nil rows))
  where
    left-nil :
        (rs : Claims)
        → sum_of (left []) rs ≡ sum_of (λ (r : Key × Claim). length (lineage_of r.1)) rs
    left-nil [] = refl
    left-nil (r ∷ rs) = omega (arith, left-nil rs)

-- a key that is seen, or waits
abbrev Reached : List Key → List Key → Key → Type 0
Reached seen todo key = (has_key seen key || has_key todo key) ≡ true

-- a key of a claim whose links are all in the list
abbrev pub Linked : Claims → (Key → Type 0) → Key → Type 0
Linked rows P key = (k : Claim) × (claim_of rows key ≡ some k) × All P (lineage_of k)

has_key-extend :
    (key : Key) (xs ys : List Key) → has_key (extend xs ys) key ≡ has_key ys key || has_key xs key
unfolding extend
has_key-extend key xs [] = refl
has_key-extend key xs (y ∷ ys) = ground (arith, has_key-extend key (y ∷ xs) ys)

Linked-map :
    (rows : Claims) (P Q : Key → Type 0)
    → ((key : Key) → P key → Q key)
    → (ks : List Key) → All (Linked rows P) ks
    → All (Linked rows Q) ks
Linked-map rows P Q f ks h =
    All-map _ _ (λ key (k, e, l). (k, e, All-map P Q f (lineage_of k) l)) ks h

-- a key that was seen before may go from those that wait
seen_again :
    (seen todo : List Key) (key x : Key)
    → has_key seen key ≡ true
    → Reached seen (key ∷ todo) x
    → Reached seen todo x
seen_again seen todo key x e h = elim (Bool-cases (same_key key x)) [
  | inl s ↦
      let at : key ≡ x = same_key→≡ key x s in
      let old : has_key seen x ≡ true = subst (λ y. has_key seen y ≡ true) at e in ground arith
  | inr s ↦ ground arith
]

-- a key that is visited is seen, and its links wait
visit-Reached :
    (seen todo more : List Key) (key x : Key)
    → Reached seen (key ∷ todo) x
    → Reached (key ∷ seen) (extend todo more) x
visit-Reached seen todo more key x h = ground (arith, has_key-extend x todo more)

same_key_refl : (a : Key) → same_key a a ≡ true
same_key_refl (a, b) = ground (arith, ==_refl a, ==_refl b)

All-keys : (P : Key → Type 0) (ks : List Key) → ((x : Key) → has_key ks x ≡ true → P x) → All P ks
All-keys P [] f = tt
All-keys P (k ∷ ks) f =
    (f k (ground (arith, same_key_refl k)), All-keys P ks (λ x h. f x (ground arith)))

All-Reached : (seen todo more : List Key) → All (Reached seen (extend todo more)) more
All-Reached seen todo more =
    All-keys (Reached seen (extend todo more)) more
      (λ x h. ground (arith, has_key-extend x todo more))

follow-Closed :
    (fuel : ℕ) (rows : Claims) (start seen todo ks : List Key)
    → All (Reached seen todo) start
    → All (Linked rows (Reached seen todo)) seen
    → follow fuel rows seen todo ≡ returns ks
    → All (λ key. has_key ks key ≡ true) start × All (Linked rows (λ key. has_key ks key ≡ true)) ks
unfolding follow
follow-Closed fuel rows start seen [] ks a l h =
    let same : seen ≡ ks = cc in
    let done : (x : Key) → Reached seen [] x → has_key ks x ≡ true =
      λ x r. subst (λ ys. has_key ys x ≡ true) same (ground arith) in
    (
      All-map _ _ done start a,
      Linked-map rows _ _ done ks (subst (All (Linked rows (Reached seen []))) same l),
    )
follow-Closed zero rows start seen (key ∷ todo) ks a l h = cc
follow-Closed (suc fuel) rows start seen (key ∷ todo) ks a l h =
    elim (Bool-cases (has_key seen key)) [
      | inl e ↦
          let again = seen_again seen todo key in
          follow-Closed fuel rows start seen todo ks (All-map _ _ (λ x. again x e) start a)
            (Linked-map rows _ _ (λ x. again x e) seen l) (ground arith)
      | inr e ↦ elim (Option-cases (claim_of rows key)) [
        | inl f ↦ cc
        | inr (k, f) ↦
            let visit = visit-Reached seen todo (lineage_of k) key in
            follow-Closed fuel rows start (key ∷ seen) (extend todo (lineage_of k)) ks
              (All-map _ _ visit start a)
              (
                (k, f, All-Reached (key ∷ seen) todo (lineage_of k)),
                Linked-map rows _ _ visit seen l,
              )
              (ground arith)
      ]
    ]

-- When the walk returns, it has seen every key it starts from, and every key that it has seen is that of
-- a claim all of whose links it has seen too.
pub walk_claims-Linked :
    (rows : Claims) (todo ks : List Key)
    → walk_claims rows todo ≡ returns ks
    → All (λ key. has_key ks key ≡ true) todo × All (Linked rows (λ key. has_key ks key ≡ true)) ks
unfolding walk_claims
walk_claims-Linked rows todo ks h =
    follow-Closed (rounds_of rows todo) rows todo [] (extend [] todo) ks
      (All-keys (Reached [] (extend [] todo)) todo
        (λ x i. ground (arith, has_key-extend x [] todo)))
      tt h
