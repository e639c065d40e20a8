-- ===== src/Scenarios/Trees.antt =====
-- A structure of two units, and the reduction of three chunks in groups of two.
use estudio_polymind_llm_orc.Prelude.{
  ℕ, ◌+◌, ◌*◌, ◌≡◌, ◌≢◌, ◌≤◌, refl, none, some, List, [], ◌∷◌, All, false, length, arith,
}
use estudio_polymind_llm_orc.Jobs.Models.{Uuid}
use estudio_polymind_llm_orc.Digestion.Models.{
  DigestionProfile, StructuralUnit, UnitKind, ReductionNode, Codec,
}
use estudio_polymind_llm_orc.Digestion.Attempt.{returns, exhausted}
use estudio_polymind_llm_orc.Digestion.Structure.{
  unit_of, valid_children, extend, walk, out_of_fuel, tree,
}
use estudio_polymind_llm_orc.Digestion.Tree.{Children, walk-ends, tree-Children}
use estudio_polymind_llm_orc.Digestion.Sizes.{request_size}
use estudio_polymind_llm_orc.Digestion.Reduction.{
  lookup, fold_lookup, over_group, Reducing, Frame, groups, per_child, raw_overhead, capacity_of,
  child_tokens, least_capacity, within_steps, reduce_at, reduce_one, reduce_all, rounds,
  reduce_within, reduce_group,
}
use estudio_polymind_llm_orc.Digestion.Rounds.{reduce_group-ends}
use estudio_polymind_llm_orc.Digestion.Below.{In, Below, reduce_group-Below}
use estudio_polymind_llm_orc.Digestion.Limits.{InLimits, reduce_group-Within}

abbrev first_of : List Uuid → Uuid
first_of [] = 0
first_of (k ∷ ks) = k

abbrev pub codec : Codec
codec = record {
  evidence_id = λ e. e.span.start + 200;
  claim_id = λ stage position. stage * 10 + position;
  chunk_id = λ _ _. 300;
  node_id = λ _ ks. first_of ks + 100;
  encoded_request = λ _. 1;
  encoded_result = λ _. 1;
  path_size = λ _. 1;
  result_size = λ _. 1;
  links_size = λ _. 1;
  evidence_size = λ _. 1;
  child_size = λ _. 1;
  pieces_size = λ _. 1;
}

abbrev pub a_profile : DigestionProfile
a_profile = record {
  context_tokens = 100000;
  reserved_output_tokens = 10;
  template_tokens = 1;
  chunk_characters = 100;
  max_fan_in = 2;
  max_result_characters = 100;
  max_response_bytes = none;
  managed_input_budget = none;
  max_claims = 8;
  max_claim_characters = 64;
  max_annotations = 4;
  max_source_units = 10;
  max_chunks = 10;
  max_steps = 20;
  max_artifact_bytes = 1000;
  max_depth = 4;
  allow_partial = false;
  minimum_coverage = 1000000;
  max_failed_units = 0;
}

abbrev pub root_unit : List Uuid → StructuralUnit
root_unit children = record {
  structural_unit_id = 1;
  parent_id = none;
  child_ids = children;
  order = 0;
  kind = UnitKind.document;
  path = [];
  block_ids = [];
}

abbrev a_section : StructuralUnit
a_section = record {
  structural_unit_id = 2;
  parent_id = some 1;
  child_ids = [];
  order = 0;
  kind = UnitKind.section;
  path = [];
  block_ids = [];
}

abbrev two_units : List StructuralUnit
two_units = root_unit (2 ∷ []) ∷ a_section ∷ []

tree-Children_example : All (λ u. Children two_units u.structural_unit_id 0 u.child_ids) two_units
unfolding tree walk unit_of valid_children extend
tree-Children_example = tree-Children two_units refl

walk-ends_example : walk 3 two_units [] (2 ∷ 1 ∷ []) ≢ out_of_fuel
walk-ends_example = walk-ends two_units (2 ∷ 1 ∷ []) refl

abbrev a_frame : Frame
a_frame = record { profile = a_profile; chunk_count = 3; root = 1 }

abbrev three_chunks : Reducing
three_chunks = record {
  reducers = [];
  levels = (1, 0) ∷ (2, 0) ∷ (3, 0) ∷ [];
  positions = (1, 0) ∷ (2, 1) ∷ (3, 2) ∷ [];
}

abbrev a_node : Uuid → List Uuid → ℕ → ReductionNode
a_node id children level = record {
  stage_id = id;
  structural_parent = 1;
  children = children;
  level = level;
  path = [];
  estimated_tokens = 515 + length children * 1124;
}

abbrev three_nodes : Reducing
three_nodes = record {
  reducers = a_node 101 (1 ∷ 2 ∷ []) 1 ∷ a_node 103 (3 ∷ []) 1 ∷ a_node 201 (101 ∷ 103 ∷ []) 2 ∷ [];
  levels = (201, 2) ∷ (103, 1) ∷ (101, 1) ∷ three_chunks.levels;
  positions = (201, 0) ∷ (103, 2) ∷ (101, 0) ∷ three_chunks.positions;
}

reduced :
    reduce_group codec a_frame (root_unit []) (1 ∷ 2 ∷ 3 ∷ []) three_chunks
    ≡ returns (some 201, three_nodes)
unfolding lookup fold_lookup over_group groups per_child raw_overhead capacity_of child_tokens
    least_capacity within_steps reduce_at reduce_one reduce_all rounds reduce_within reduce_group
    request_size
reduced = refl

reduce_group-ends_example :
    reduce_group codec a_frame (root_unit []) (1 ∷ 2 ∷ 3 ∷ []) three_chunks ≢ exhausted
reduce_group-ends_example =
    reduce_group-ends codec a_frame (root_unit []) (1 ∷ 2 ∷ 3 ∷ []) three_chunks

reduce_group-Below_example :
    (root : Uuid) × (some 201 ≡ some root)
    × ((n : ReductionNode) → In n [] → In n three_nodes.reducers)
    × All (λ k. Below three_nodes.reducers k root) (1 ∷ 2 ∷ 3 ∷ [])
reduce_group-Below_example =
    reduce_group-Below codec a_frame (root_unit []) (1 ∷ 2 ∷ 3 ∷ []) three_chunks three_nodes
      (some 201) (omega arith) reduced

reduce_group-Within_example :
    All (InLimits a_frame) three_nodes.reducers × (3 + length three_nodes.reducers + 2 ≤ 20)
reduce_group-Within_example =
    reduce_group-Within codec a_frame (root_unit []) (1 ∷ 2 ∷ 3 ∷ []) three_chunks three_nodes
      (some 201) tt (omega arith) reduced
