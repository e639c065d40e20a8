-- ===== src/Digestion/Structure.antt =====
-- The validators of documents/digestion/models.py: profiles, requests and the tree of the structural
-- units.
use estudio_polymind_llm_orc.Prelude.{
  ℕ, zero, suc, ◌+◌, Bool, true, false, not, ◌&&◌, Option, none, some, List, [], ◌∷◌, ◌==◌, ltb,
  leb, length, find, map, if◌then◌else◌, or_else,
}
use estudio_polymind_llm_orc.Jobs.Models.{Uuid}
use estudio_polymind_llm_orc.Digestion.Models.{
  DigestionProfile, UnitKind, document, StructuralUnit, SourcePiece, StageRequest, analysis,
  reduction, Codec,
}
use estudio_polymind_llm_orc.Digestion.Sets.{has, distinct}

-- `DigestionProfile.budget`
unfoldable pub valid_budget : DigestionProfile → Bool
valid_budget p = ltb (p.reserved_output_tokens + p.template_tokens) p.context_tokens

-- `DigestionProfile.response_byte_limit`
unfoldable pub response_byte_limit : DigestionProfile → ℕ
response_byte_limit p = or_else p.max_response_bytes p.max_result_characters

abbrev pub is_document : UnitKind → Bool
is_document document = true
is_document _ = false

abbrev pub is_parent : Uuid → Option Uuid → Bool
is_parent key none = false
is_parent key (some p) = p == key

-- by_id.get(key)
unfoldable pub unit_of : List StructuralUnit → Uuid → Option StructuralUnit
unit_of units key = find (λ u. u.structural_unit_id == key) units

abbrev pub unit_ids : List StructuralUnit → List Uuid
unit_ids units = map (λ u. u.structural_unit_id) units

-- a child that names its parent and its place
abbrev pub child_at : Uuid → ℕ → Option StructuralUnit → Bool
child_at key index none = false
child_at key index (some c) = is_parent key c.parent_id && c.order == index

-- the loop over the children of a unit
unfoldable pub valid_children : List StructuralUnit → Uuid → ℕ → List Uuid → Bool
valid_children units key index [] = true
valid_children units key index (c ∷ cs) =
    child_at key index (unit_of units c) && valid_children units key (suc index) cs

-- stack.extend(ids), on a stack with its end in front
unfoldable pub extend {ℓ} : {A : Type ℓ} → List A → List A → List A
extend stack [] = stack
extend stack (k ∷ ks) = extend (k ∷ stack) ks

-- what the loop comes to: the ids it visited, or the error
pub data Walk : Type 0 where
  visited : List Uuid → Walk
  invalid out_of_fuel : Walk

-- `while stack`
unfoldable pub walk : ℕ → List StructuralUnit → List Uuid → List Uuid → Walk
walk fuel units seen [] = visited seen
walk zero units seen (key ∷ stack) = out_of_fuel
walk (suc fuel) units seen (key ∷ stack) =
    if has seen key then invalid else elim (unit_of units key) [
      | none ↦ invalid
      | some unit ↦
          if valid_children units key 0 unit.child_ids
          then walk fuel units (key ∷ seen) (extend stack unit.child_ids)
          else invalid
    ]

abbrev pub reaches_all : List StructuralUnit → Walk → Bool
reaches_all units (visited seen) = length seen == length units
reaches_all units _ = false

-- `StructuralMap.tree`
unfoldable pub tree : List StructuralUnit → Bool
tree [] = false
tree (root ∷ rest) =
    let units = root ∷ rest in
    distinct (unit_ids units)
    && (elim root.parent_id [ none ↦ true | some p ↦ false ])
    && is_document root.kind
    && reaches_all units (walk (suc (length units)) units [] (root.structural_unit_id ∷ []))

module _ (c : Codec) where
  abbrev pub piece_id : SourcePiece → Uuid
  piece_id p = c.evidence_id p.evidence

  -- `StageRequest.material_boundary`
  unfoldable pub material_boundary : StageRequest → Bool
  material_boundary r = elim r.stage [
    | analysis ↦
        not (length r.source_data == 0)
        && length r.children == 0
        && distinct (map (λ p. piece_id p) r.source_data)
    | reduction ↦
        length r.source_data == 0
        && leb (length r.children) r.profile.max_fan_in
        && distinct (map (λ (k : _). k.result.stage_id) r.children)
  ]
