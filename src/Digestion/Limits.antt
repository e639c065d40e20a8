-- ===== src/Digestion/Limits.antt =====
-- The limits that `reduce_group` (documents/digestion/planning.py) keeps: the depth, the fan-in and the
-- number of steps.
use estudio_polymind_llm_orc.Prelude.{
  ℕ, zero, suc, ◌+◌, ◌≤◌, ◌≡◌, sym, ap, subst, inl, inr, Option, none, some, List, [], ◌∷◌, ◌++◌,
  leb, length, drop, All, arith, All-append, length-take-le,
}
use estudio_polymind_llm_orc.Jobs.Models.{Uuid}
use estudio_polymind_llm_orc.Digestion.Models.{
  StructuralUnit, ReductionNode, Codec, ManagedInputBudget,
}
use estudio_polymind_llm_orc.Digestion.Attempt.{returns, >>=_inv, unless_inv}
use estudio_polymind_llm_orc.Digestion.Reduction.{
  Reducing, Frame, groups, reduce_one, node_for, reduce_all, single, rounds, reduce_within,
  reduce_group, least_capacity, capacity_of,
}
use estudio_polymind_llm_orc.Digestion.Below.{reduce_one_inv, ended}

groups-le :
    (capacity fuel : ℕ) (xs : List Uuid) → All (λ g. length g ≤ capacity) (groups capacity fuel xs)
unfolding groups
groups-le capacity fuel [] = tt
groups-le capacity zero (x ∷ xs) = tt
groups-le capacity (suc fuel) (x ∷ xs) =
    (length-take-le capacity (x ∷ xs), groups-le capacity fuel (drop capacity (x ∷ xs)))

-- the depth and the fan-in of a node
abbrev pub InLimits : Frame → ReductionNode → Type 0
InLimits f n = (n.level ≤ f.profile.max_depth) × (length n.children ≤ f.profile.max_fan_in)

module _ (c : Codec) (f : Frame) (unit : StructuralUnit) where
  -- the nodes are in their limits, and so is their number, with that of the chunks
  abbrev Within : Reducing → Type 0
  Within s =
      All (InLimits f) s.reducers × (f.chunk_count + length s.reducers + 2 ≤ f.profile.max_steps)

  reduce_one-Within :
      (overhead : ℕ) (group : List Uuid) (s s' : Reducing) (key : Uuid)
      → length group ≤ f.profile.max_fan_in
      → All (InLimits f) s.reducers
      → reduce_one c f unit overhead group s ≡ returns (key, s')
      → Within s'
  reduce_one-Within overhead group s s' key l a h =
      let (level, position, b, e, w, m) = reduce_one_inv c f unit overhead group s s' key h in
      let n = node_for c f unit overhead level group in
      let S : s.reducers ++ n ∷ [] ≡ s'.reducers = ap (λ (r : Reducing). r.reducers) (sym w) in
      (
        subst (All (InLimits f)) S
            (All-append (InLimits f) s.reducers (n ∷ []) a ((ground arith, l), tt)),
        ground arith,
      )

  reduce_all-limits :
      (overhead : ℕ) (gs : List (List Uuid)) (s s' : Reducing) (ks : List Uuid)
      → All (λ g. length g ≤ f.profile.max_fan_in) gs
      → Within s
      → reduce_all c f unit overhead gs s ≡ returns (ks, s')
      → Within s'
  unfolding reduce_all
  reduce_all-limits overhead [] s s' ks l a h = let same : s ≡ s' = cc in subst Within same a
  reduce_all-limits overhead (g ∷ gs) s s' ks l a h =
      let ((key, t), e, k) = >>=_inv (reduce_one c f unit overhead g s) _ h in
      let ((rest, t'), e', k') = >>=_inv (reduce_all c f unit overhead gs t) _ k in
      let same : t' ≡ s' = cc in
      subst Within same (
        reduce_all-limits overhead gs t t' rest l.1 (reduce_one-Within overhead g s t key l.0 a.0 e)
          e')

  rounds-limits :
      (fuel capacity overhead : ℕ) (current : List Uuid) (s s' : Reducing) (root : Uuid)
      → capacity ≤ f.profile.max_fan_in
      → Within s
      → rounds c f unit fuel capacity overhead current s ≡ returns (root, s')
      → Within s'
  unfolding rounds
  rounds-limits zero capacity overhead current s s' root m a h = cc
  rounds-limits (suc fuel) capacity overhead current s s' root m a h =
      let ((following, t), e, k) =
        >>=_inv (reduce_all c f unit overhead (groups capacity (length current) current) s) _ h in
      let small = All-le capacity m _ (groups-le capacity (length current) current) in
      let b = reduce_all-limits overhead _ s t following small a e in
      elim (ended c f unit (single c f unit following) _ t s' root k) [
        | inl (o, same) ↦ subst Within same b
        | inr more ↦ rounds-limits fuel capacity overhead following t s' root m b more
      ]
    where
      All-le :
          (n : ℕ)
          → n ≤ f.profile.max_fan_in
          → (gs : List (List Uuid)) → All (λ g. length g ≤ n) gs
          → All (λ g. length g ≤ f.profile.max_fan_in) gs
      All-le n m [] h = tt
      All-le n m (g ∷ gs) h = (omega (arith, m, h.0), All-le n m gs h.1)

  capacity_of-le :
      (b : Option ManagedInputBudget) → (capacity_of c f unit b).0 ≤ f.profile.max_fan_in
  unfolding capacity_of
  capacity_of-le none = omega arith
  capacity_of-le (some b) = omega arith

  reduce_within-limits :
      (w : ℕ × ℕ) (children : List Uuid) (s s' : Reducing) (o : Option Uuid)
      → w.0 ≤ f.profile.max_fan_in
      → Within s
      → reduce_within c f unit w children s ≡ returns (o, s')
      → Within s'
  unfolding reduce_within
  reduce_within-limits (capacity, overhead) children s s' o m a h =
      let (b, n) =
        unless_inv (leb (least_capacity c f unit f.profile.managed_input_budget children) capacity)
          _ _ h in
      let ((root, t), e, k) =
        >>=_inv (rounds c f unit (length children) capacity overhead children s) _ n in
      let same : t ≡ s' = cc in
      subst Within same (rounds-limits (length children) capacity overhead children s t root m a e)

-- `reduce_group` keeps the limits of the profile: if every node has at most max_depth levels and
-- max_fan_in children, and the chunks, the nodes and two more steps are at most max_steps, then the
-- same holds when it returns.
pub reduce_group-Within :
    (c : Codec) (f : Frame) (unit : StructuralUnit) (children : List Uuid) (s s' : Reducing)
    (o : Option Uuid)
    → All (InLimits f) s.reducers
    → f.chunk_count + length s.reducers + 2 ≤ f.profile.max_steps
    → reduce_group c f unit children s ≡ returns (o, s')
    → All (InLimits f) s'.reducers × (f.chunk_count + length s'.reducers + 2 ≤ f.profile.max_steps)
unfolding reduce_group
reduce_group-Within c f unit [] s s' o a m h =
    let same : s ≡ s' = cc in subst (Within c f unit) same (a, m)
reduce_group-Within c f unit (k ∷ ks) s s' o a m h =
    reduce_within-limits c f unit (capacity_of c f unit f.profile.managed_input_budget) (k ∷ ks) s
      s' o (capacity_of-le c f unit f.profile.managed_input_budget) (a, m) h
