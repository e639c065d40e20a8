-- ===== src/Digestion/Tree.antt =====
-- The walk of `StructuralMap.tree` (documents/digestion/models.py): it ends, and a tree that passes
-- has every unit linked to its children.
use estudio_polymind_llm_orc.Prelude.{
  ℕ, zero, suc, ◌+◌, ◌<◌, ◌≡◌, ◌≢◌, refl, subst, Bool, true, false, not, &&-eq-true, Bool-cases,
  Option-cases, Option, ap, ==_refl, none, some, inl, inr, List, [], ◌∷◌, ◌==◌, ==→≡, length, count,
  All, arith,
}
use estudio_polymind_llm_orc.Jobs.Models.{Uuid}
use estudio_polymind_llm_orc.Digestion.Models.{StructuralUnit}
use estudio_polymind_llm_orc.Digestion.Sets.{has, distinct}
use estudio_polymind_llm_orc.Digestion.Structure.{
  unit_of, unit_ids, is_parent, child_at, valid_children, extend, Walk, visited, invalid,
  out_of_fuel, walk, reaches_all, tree,
}

abbrev unseen : List Uuid → StructuralUnit → Bool
unseen seen u = not (has seen u.structural_unit_id)

-- an id that no unit has does not change what is unseen
count-other :
    (key : Uuid) (seen : List Uuid) (us : List StructuralUnit)
    → has (unit_ids us) key ≡ false
    → count (unseen (key ∷ seen)) us ≡ count (unseen seen) us
count-other key seen [] h = refl
count-other key seen (u ∷ us) h = ground (arith, count-other key seen us)

-- a visit takes one unit off those unseen
count-visit :
    (key : Uuid) (seen : List Uuid) (us : List StructuralUnit) {v : StructuralUnit}
    → distinct (unit_ids us) ≡ true
    → unit_of us key ≡ some v
    → has seen key ≡ false
    → count (unseen seen) us ≡ suc (count (unseen (key ∷ seen)) us)
unfolding unit_of
count-visit key seen [] d f n = cc
count-visit key seen (u ∷ us) {v} d f n =
    let (fresh, rest) = &&-eq-true (not (has (unit_ids us) u.structural_unit_id)) _ d in
    elim (Bool-cases (u.structural_unit_id == key)) [
      | inl e ↦
          let other : has (unit_ids us) key ≡ false =
            ground (arith, ==→≡ u.structural_unit_id key e) in
          ground (arith, count-other key seen us other, ==→≡ u.structural_unit_id key e)
      | inr e ↦ ground (arith, count-visit key seen us {v = v} rest (cc) n)
    ]

-- the ids, from a position on, are units that name the parent and have their position as order
abbrev pub Children : List StructuralUnit → Uuid → ℕ → List Uuid → Type 0
Children units parent index [] = Unit
Children units parent index (c ∷ cs) =
    ((v : StructuralUnit) × (unit_of units c ≡ some v)
      × (v.parent_id ≡ some parent)
      × (v.order ≡ index))
    × Children units parent (suc index) cs

-- a unit that is found by the id and is linked to its children
abbrev Linked : List StructuralUnit → Uuid → Type 0
Linked units k = (u : StructuralUnit) × (unit_of units k ≡ some u) × Children units k 0 u.child_ids

is_parent-some : (parent : Uuid) (p : Option Uuid) → is_parent parent p ≡ true → p ≡ some parent
is_parent-some parent none h = cc
is_parent-some parent (some p) h = ap some (==→≡ p parent h)

valid_children-Children :
    (units : List StructuralUnit) (parent : Uuid) (index : ℕ) (cs : List Uuid)
    → valid_children units parent index cs ≡ true
    → Children units parent index cs
unfolding valid_children
valid_children-Children units parent index [] h = tt
valid_children-Children units parent index (c ∷ cs) h =
    let (here, rest) = &&-eq-true (child_at parent index (unit_of units c)) _ h in
    (child (unit_of units c) refl here, valid_children-Children units parent (suc index) cs rest)
  where
    child :
        (x : Option StructuralUnit)
        → unit_of units c ≡ x
        → child_at parent index x ≡ true
        → (v : StructuralUnit) × (unit_of units c ≡ some v)
          × (v.parent_id ≡ some parent)
          × (v.order ≡ index)
    child none e k = cc
    child (some v) e k =
        let (p, o) = &&-eq-true (is_parent parent v.parent_id) _ k in
        (v, e, is_parent-some parent v.parent_id p, ==→≡ v.order index o)

-- what a walk that did not run out of fuel has visited
abbrev Good : List StructuralUnit → Walk → Type 0
Good units (visited seen) =
    All (Linked units) seen × (length seen + count (unseen seen) units ≡ length units)
Good units invalid = Unit
Good units out_of_fuel = ⊥

walk-Good :
    (units : List StructuralUnit) (fuel : ℕ) (seen stack : List Uuid)
    → distinct (unit_ids units) ≡ true
    → count (unseen seen) units < fuel
    → All (Linked units) seen
    → length seen + count (unseen seen) units ≡ length units
    → Good units (walk fuel units seen stack)
unfolding walk
walk-Good units fuel seen [] d m l n = (l, n)
walk-Good units zero seen (key ∷ stack) d m l n = absurd (omega (arith, m))
walk-Good units (suc fuel) seen (key ∷ stack) d m l n = elim (Bool-cases (has seen key)) [
  | inl e ↦ rw e tt
  | inr e ↦ elim (Option-cases (unit_of units key)) [
    | inl f ↦ rw (e, f) tt
    | inr (u, f) ↦ elim (Bool-cases (valid_children units key 0 u.child_ids)) [
      | inr v ↦ rw (e, f, v) tt
      | inl v ↦
          let c = count-visit key seen units d f e in
          rw (e, f, v)
            (walk-Good units fuel (key ∷ seen) (extend stack u.child_ids) d (omega (arith, c, m))
              ((u, f, valid_children-Children units key 0 u.child_ids v), l) (omega (arith, c, n)))
    ]
  ]
]

count-nil : (us : List StructuralUnit) → count (unseen []) us ≡ length us
count-nil [] = refl
count-nil (u ∷ us) = omega (arith, count-nil us)

-- `while stack` of `StructuralMap.tree` ends on every list of units with distinct ids and every stack:
-- as many rounds as there are units and one more are enough.
pub walk-ends :
    (units : List StructuralUnit) (stack : List Uuid)
    → distinct (unit_ids units) ≡ true
    → walk (suc (length units)) units [] stack ≢ out_of_fuel
walk-ends units stack d e = subst (Good units) e (
    walk-Good units (suc (length units)) [] stack d (omega (arith, count-nil units)) tt
      (omega (arith, count-nil units)))

has-Linked :
    (units : List StructuralUnit) (k : Uuid) (seen : List Uuid)
    → All (Linked units) seen
    → has seen k ≡ true
    → Linked units k
has-Linked units k [] l h = cc
has-Linked units k (s ∷ seen) l h = elim (Bool-cases (s == k)) [
  | inl e ↦ subst (Linked units) (==→≡ s k e) l.0
  | inr e ↦ has-Linked units k seen l.1 (ground arith)
]

All-seen :
    (units : List StructuralUnit) (seen : List Uuid) (us : List StructuralUnit)
    → All (Linked units) seen
    → count (unseen seen) us ≡ 0
    → All (λ u. Linked units u.structural_unit_id) us
All-seen units seen [] l c = tt
All-seen units seen (u ∷ us) l c = (
  has-Linked units u.structural_unit_id seen l (ground arith),
  All-seen units seen us l (ground arith),
)

reaches_all-Linked :
    (units : List StructuralUnit) (w : Walk)
    → Good units w
    → reaches_all units w ≡ true
    → All (λ u. Linked units u.structural_unit_id) units
reaches_all-Linked units (visited seen) g h =
    All-seen units seen units g.0 (omega (arith, ==→≡ (length seen) (length units) h, g.1))
reaches_all-Linked units invalid g h = cc
reaches_all-Linked units out_of_fuel g h = absurd g

-- a unit that has another id does not stand before the others
found-behind :
    (u : StructuralUnit) (us vs : List StructuralUnit)
    → has (unit_ids vs) u.structural_unit_id ≡ false
    → All (λ v. unit_of us v.structural_unit_id ≡ some v) vs
    → All (λ v. unit_of (u ∷ us) v.structural_unit_id ≡ some v) vs
unfolding unit_of
found-behind u us [] n a = tt
found-behind u us (v ∷ vs) n (e, a) =
    let other : (u.structural_unit_id == v.structural_unit_id) ≡ false =
      elim (Bool-cases (u.structural_unit_id == v.structural_unit_id)) [
        | inl s ↦ ground (arith, n, ==→≡ u.structural_unit_id v.structural_unit_id s)
        | inr s ↦ s
      ] in
    (rw other e, found-behind u us vs (ground (arith, n)) a)

-- under distinct ids each unit is found by its own
distinct-found :
    (us : List StructuralUnit)
    → distinct (unit_ids us) ≡ true
    → All (λ v. unit_of us v.structural_unit_id ≡ some v) us
unfolding unit_of
distinct-found [] d = tt
distinct-found (u ∷ us) d =
    let (fresh, rest) = &&-eq-true (not (has (unit_ids us) u.structural_unit_id)) _ d in
    (
      rw (==_refl u.structural_unit_id) refl,
      found-behind u us us (ground (arith, fresh)) (distinct-found us rest),
    )

own-Children :
    (units us : List StructuralUnit)
    → All (λ u. unit_of units u.structural_unit_id ≡ some u) us
    → All (λ u. Linked units u.structural_unit_id) us
    → All (λ u. Children units u.structural_unit_id 0 u.child_ids) us
own-Children units [] f l = tt
own-Children units (u ∷ us) (e, f) ((w, e', c), l) =
    let same : w ≡ u = cc in
    (
      subst (λ x. Children units u.structural_unit_id 0 x.child_ids) same c,
      own-Children units us f l,
    )

-- In a map of units that passes validation, each child that a unit lists is a unit of the map, names
-- that unit as its parent, and has the position in the list as its order.
pub tree-Children :
    (units : List StructuralUnit)
    → tree units ≡ true
    → All (λ u. Children units u.structural_unit_id 0 u.child_ids) units
unfolding tree
tree-Children [] h = tt
tree-Children (root ∷ rest) h =
    let units = root ∷ rest in
    let d : distinct (unit_ids units) ≡ true = ground arith in
    own-Children units units (distinct-found units d) (
      reaches_all-Linked units _
        (walk-Good units (suc (length units)) [] (root.structural_unit_id ∷ []) d
          (omega (arith, count-nil units)) tt (omega (arith, count-nil units)))
        (ground arith))
