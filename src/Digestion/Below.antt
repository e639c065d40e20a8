-- ===== src/Digestion/Below.antt =====
-- The tree that `reduce_group` (documents/digestion/planning.py) builds: every stage it is given stands
-- below the one it returns, and every node of the tree keeps the limits of the profile.
use estudio_polymind_llm_orc.Prelude.{
  ℕ, zero, suc, ◌+◌, ◌≤◌, ◌≡◌, refl, sym, ap, subst, ◌⊎◌, inl, inr, true, Bool-cases, ==→≡, none,
  some, Option, List, [], ◌∷◌, ◌++◌, ◌==◌, leb, length, take, drop, min, max, All, arith, All-map,
}
use estudio_polymind_llm_orc.Jobs.Models.{Uuid}
use estudio_polymind_llm_orc.Digestion.Models.{
  StructuralUnit, ReductionNode, ManagedInputBudget, Codec,
}
use estudio_polymind_llm_orc.Digestion.Sets.{has}
use estudio_polymind_llm_orc.Digestion.Rounds.{length-drop}
use estudio_polymind_llm_orc.Digestion.Attempt.{Attempt, returns, >>=_inv, unless_inv}
use estudio_polymind_llm_orc.Digestion.Reduction.{
  over_group, Reducing, Frame, groups, within_steps, reduce_at, reduce_one, node_for, with_node,
  reduce_all, single, rounds, reduce_within, reduce_group, least_capacity, capacity_of,
}

abbrev pub In : ReductionNode → List ReductionNode → Type 0
In n [] = ⊥
In n (m ∷ ms) = (n ≡ m) ⊎ In n ms

-- `c` is `k`, or a child of a node that is `k` or stands below it
pub data Below (R : List ReductionNode) : Uuid → Uuid → Type 0 where
  self : {k : Uuid} → Below R k k
  under :
      {c j : Uuid} (n : ReductionNode)
      → In n R
      → has n.children j ≡ true
      → Below R c j
      → Below R c n.stage_id

abbrev Grows : List ReductionNode → List ReductionNode → Type 0
Grows R S = (n : ReductionNode) → In n R → In n S

Below-trans : {R : List ReductionNode} {a b c : Uuid} → Below R a b → Below R b c → Below R a c
Below-trans p self = p
Below-trans p (under n i h q) = under n i h (Below-trans p q)

Below-Grows : {R S : List ReductionNode} {a b : Uuid} → Grows R S → Below R a b → Below S a b
Below-Grows g self = self
Below-Grows g (under n i h q) = under n (g n i) h (Below-Grows g q)

In-left : (n : ReductionNode) (R S : List ReductionNode) → In n R → In n (R ++ S)
In-left n [] S i = absurd i
In-left n (m ∷ R) S (inl e) = inl e
In-left n (m ∷ R) S (inr i) = inr (In-left n R S i)

In-last : (n : ReductionNode) (R : List ReductionNode) → In n (R ++ n ∷ [])
In-last n [] = inl refl
In-last n (m ∷ R) = inr (In-last n R)

module _ {κ} (P : Uuid → Type κ) where
  All-has : (ks : List Uuid) (k : Uuid) → All P ks → has ks k ≡ true → P k
  All-has [] k h e = cc
  All-has (j ∷ ks) k h e = elim (Bool-cases (j == k)) [
    | inl s ↦ subst P (==→≡ j k s) h.0
    | inr s ↦ All-has ks k h.1 (ground arith)
  ]

  All-self : (ks : List Uuid) → ((k : Uuid) → has ks k ≡ true → P k) → All P ks
  All-self [] f = tt
  All-self (k ∷ ks) f = (f k (ground arith), All-self ks (λ j h. f j (ground arith)))

  All-parts : (n : ℕ) (xs : List Uuid) → All P (take n xs) → All P (drop n xs) → All P xs
  All-parts zero xs h k = k
  All-parts (suc n) [] h k = tt
  All-parts (suc n) (x ∷ xs) h k = (h.0, All-parts n xs h.1 k)

  -- the groups are all there is
  All-groups :
      (capacity fuel : ℕ) (xs : List Uuid)
      → 1 ≤ capacity
      → length xs ≤ fuel
      → All (λ g. All P g) (groups capacity fuel xs)
      → All P xs
  unfolding groups
  All-groups capacity fuel [] c m h = tt
  All-groups capacity zero (x ∷ xs) c m h = absurd (omega (arith, m))
  All-groups capacity (suc fuel) (x ∷ xs) c m h = All-parts capacity (x ∷ xs) h.0 (
      All-groups capacity fuel (drop capacity (x ∷ xs)) c
        (omega (arith, length-drop capacity (x ∷ xs), m, c)) h.1)

module _ (c : Codec) (f : Frame) (unit : StructuralUnit) where
  -- what one turn of the inner loop writes, when it does not raise
  abbrev pub Reduced : ℕ → List Uuid → Reducing → Uuid → Reducing → Type 0
  Reduced overhead group s key s' =
      (level position : ℕ) × (leb level f.profile.max_depth ≡ true)
      × (key ≡ c.node_id unit.structural_unit_id group)
      × (s' ≡ with_node c f unit (node_for c f unit overhead level group) position s)
      × (leb (f.chunk_count + length s'.reducers + 2) f.profile.max_steps ≡ true)

  pub reduce_one_inv :
      (overhead : ℕ) (group : List Uuid) (s s' : Reducing) (key : Uuid)
      → reduce_one c f unit overhead group s ≡ returns (key, s')
      → Reduced overhead group s key s'
  unfolding reduce_one reduce_at within_steps
  reduce_one_inv overhead group s s' key h =
      let (n, e, k) = >>=_inv (over_group max s.levels group) _ h in
      let (b, m) = unless_inv (leb (suc n) f.profile.max_depth) _ _ k in
      let (position, e', k') = >>=_inv (over_group min s.positions group) _ m in
      let t = with_node c f unit (node_for c f unit overhead (suc n) group) position s in
      let (b', m') =
        unless_inv (leb (f.chunk_count + length t.reducers + 2) f.profile.max_steps) _ _ k' in
      let same : t ≡ s' = cc in
      (
        suc n,
        position,
        b,
        cc,
        cc,
        subst
            (λ (r : Reducing).
              leb (f.chunk_count + length r.reducers + 2) f.profile.max_steps ≡ true)
            same b',
      )

  -- `k` stands below one of the stages
  abbrev Held : List ReductionNode → List Uuid → Uuid → Type 0
  Held R ks k = (j : Uuid) × (has ks j ≡ true) × Below R k j

  reduce_one-Below :
      (overhead : ℕ) (group : List Uuid) (s s' : Reducing) (key : Uuid)
      → reduce_one c f unit overhead group s ≡ returns (key, s')
      → Grows s.reducers s'.reducers × All (λ k. Below s'.reducers k key) group
  reduce_one-Below overhead group s s' key h =
      let (level, position, b, e, w, m) = reduce_one_inv overhead group s s' key h in
      let n = node_for c f unit overhead level group in
      let S : s.reducers ++ n ∷ [] ≡ s'.reducers = ap (λ (r : Reducing). r.reducers) (sym w) in
      (
        λ x i. subst (In x) S (In-left x s.reducers (n ∷ []) i),
        All-self _ group (λ k i.
            subst (Below s'.reducers k) (sym e)
              (under n (subst (In n) S (In-last n s.reducers)) i self)),
      )

  joined :
      (R S T : List ReductionNode) (g : List Uuid) (gs : List (List Uuid)) (ks : List Uuid)
      (key : Uuid)
      → Grows R S
      → All (λ k. Below S k key) g
      → Grows S T
      → All (λ g. All (Held T ks) g) gs
      → Grows R T × All (λ g. All (Held T (key ∷ ks)) g) (g ∷ gs)
  joined R S T g gs ks key grow held grow' held' = (
    λ n i. grow' n (grow n i),
    (
      All-map _ _ (λ k b. (key, ground arith, Below-Grows grow' b)) g held,
      All-map _ _ (λ xs a. All-map _ _ (λ k (j, i, b). (j, ground (arith, i), b)) xs a) gs held',
    ),
  )

  reduce_all-Below :
      (overhead : ℕ) (gs : List (List Uuid)) (s s' : Reducing) (ks : List Uuid)
      → reduce_all c f unit overhead gs s ≡ returns (ks, s')
      → Grows s.reducers s'.reducers × All (λ g. All (Held s'.reducers ks) g) gs
  unfolding reduce_all
  reduce_all-Below overhead [] s s' ks h =
      let same : s ≡ s' = cc in
      (subst (λ (r : Reducing). Grows s.reducers r.reducers) same (λ n i. i), tt)
  reduce_all-Below overhead (g ∷ gs) s s' ks h =
      let ((key, t), e, k) = >>=_inv (reduce_one c f unit overhead g s) _ h in
      let ((rest, t'), e', k') = >>=_inv (reduce_all c f unit overhead gs t) _ k in
      let same : (key ∷ rest, t') ≡ (ks, s') = cc in
      let (grow, held) = reduce_one-Below overhead g s t key e in
      let (grow', held') = reduce_all-Below overhead gs t t' rest e' in
      subst
        (λ (r : List Uuid × Reducing).
          Grows s.reducers r.1.reducers × All (λ g. All (Held r.1.reducers r.0) g) (g ∷ gs))
        same (joined _ _ _ g gs rest key grow held grow' held')

  single-some : (ks : List Uuid) (k : Uuid) → single c f unit ks ≡ some k → ks ≡ k ∷ []
  single-some [] k h = cc
  single-some (j ∷ []) k h = cc
  single-some (j ∷ i ∷ ks) k h = cc

  -- how a round goes on
  pub ended :
      (o : Option Uuid) (rest : Attempt (Uuid × Reducing)) (t s' : Reducing) (root : Uuid)
      → (elim o [ some k ↦ returns (k, t) | none ↦ rest ]) ≡ returns (root, s')
      → ((o ≡ some root) × (t ≡ s')) ⊎ (rest ≡ returns (root, s'))
  ended none rest t s' root h = inr h
  ended (some k) rest t s' root h = inl (cc, cc)

  only_root :
      (R : List ReductionNode) (ks : List Uuid) (root k j : Uuid)
      → ks ≡ root ∷ []
      → has ks j ≡ true
      → Below R k j
      → Below R k root
  only_root R ks root k j e i b = subst (Below R k) (ground arith) b

  rounds-Below :
      (fuel capacity overhead : ℕ) (current : List Uuid) (s s' : Reducing) (root : Uuid)
      → 1 ≤ capacity
      → rounds c f unit fuel capacity overhead current s ≡ returns (root, s')
      → Grows s.reducers s'.reducers × All (λ k. Below s'.reducers k root) current
  unfolding rounds
  rounds-Below zero capacity overhead current s s' root m h = cc
  rounds-Below (suc fuel) capacity overhead current s s' root m h =
      let ((following, t), e, k) =
        >>=_inv (reduce_all c f unit overhead (groups capacity (length current) current) s) _ h in
      let (grow, held) = reduce_all-Below overhead _ s t following e in
      let parts =
        All-groups (Held t.reducers following) capacity (length current) current m (omega arith)
          held in
      elim (ended (single c f unit following) _ t s' root k) [
        | inl (o, same) ↦
            let only = single-some following root o in
            subst
              (λ (r : Reducing).
                Grows s.reducers r.reducers × All (λ k. Below r.reducers k root) current)
              same
              (
                grow,
                All-map _ _ (λ k (j, i, b). only_root t.reducers following root k j only i b)
                    current parts,
              )
        | inr more ↦
            let (grow', below) = rounds-Below fuel capacity overhead following t s' root m more in
            (
              λ n i. grow' n (grow n i),
              All-map _ _
                  (λ k (j, i, b). Below-trans (Below-Grows grow' b) (All-has _ following j below i))
                  current parts,
            )
      ]

  least_capacity-le :
      (m : Option ManagedInputBudget) (ks : List Uuid) (capacity : ℕ)
      → 1 ≤ length ks
      → leb (least_capacity c f unit m ks) capacity ≡ true
      → 1 ≤ capacity
  unfolding least_capacity
  least_capacity-le none ks capacity n h = ground arith
  least_capacity-le (some b) ks capacity n h = ground arith

  reduce_within-Below :
      (w : ℕ × ℕ) (children : List Uuid) (s s' : Reducing) (o : Option Uuid)
      → 1 ≤ length children
      → reduce_within c f unit w children s ≡ returns (o, s')
      → (root : Uuid) × (o ≡ some root)
        × Grows s.reducers s'.reducers
        × All (λ k. Below s'.reducers k root) children
  unfolding reduce_within
  reduce_within-Below (capacity, overhead) children s s' o n h =
      let (b, m) =
        unless_inv (leb (least_capacity c f unit f.profile.managed_input_budget children) capacity)
          _ _ h in
      let ((root, t), e, k) =
        >>=_inv (rounds c f unit (length children) capacity overhead children s) _ m in
      let least = least_capacity-le f.profile.managed_input_budget children capacity n b in
      let (grow, below) =
        rounds-Below (length children) capacity overhead children s t root least e in
      let same : (some root, t) ≡ (o, s') = cc in
      let (grown, all) =
        subst
          (λ (r : Option Uuid × Reducing).
            Grows s.reducers r.1.reducers × All (λ k. Below r.1.reducers k root) children)
          same (grow, below) in
      (root, cc, grown, all)

-- When `reduce_group` returns for one child or more, it returns a stage, every node that was there is
-- still there, and every child is that stage or stands below it in the nodes: no child is dropped.
pub reduce_group-Below :
    (c : Codec) (f : Frame) (unit : StructuralUnit) (children : List Uuid) (s s' : Reducing)
    (o : Option Uuid)
    → 1 ≤ length children
    → reduce_group c f unit children s ≡ returns (o, s')
    → (root : Uuid) × (o ≡ some root)
      × ((n : ReductionNode) → In n s.reducers → In n s'.reducers)
      × All (λ k. Below s'.reducers k root) children
unfolding reduce_group
reduce_group-Below c f unit [] s s' o n h = absurd (omega (arith, n))
reduce_group-Below c f unit (k ∷ ks) s s' o n h =
    reduce_within-Below c f unit (capacity_of c f unit f.profile.managed_input_budget) (k ∷ ks) s s'
      o n h
