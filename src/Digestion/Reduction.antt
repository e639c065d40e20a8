-- ===== src/Digestion/Reduction.antt =====
-- `reduce_group` of `_build` (documents/digestion/planning.py) and the loop that calls it: the tree of
-- reductions over the chunks of each structural unit.
use estudio_polymind_llm_orc.Prelude.{
  ℕ, zero, suc, ◌+◌, ◌-◌, ◌*◌, ◌/◌, min, max, Bool, Option, none, some, List, [], ◌∷◌, ◌++◌, ◌==◌,
  leb, length, find, take, drop,
}
use estudio_polymind_llm_orc.Jobs.Models.{Uuid}
use estudio_polymind_llm_orc.Documents.Models.{Text}
use estudio_polymind_llm_orc.Digestion.Models.{
  synthesis_limit_exceeded, structural_planning_failed, DigestionProfile, ManagedInputBudget,
  StructuralUnit, StageRequest, reduction, ReductionNode, Codec,
}
use estudio_polymind_llm_orc.Digestion.Attempt.{Attempt, returns, raises, exhausted, unless, ◌>>=◌}
use estudio_polymind_llm_orc.Digestion.Sizes.{request_size, reduction_size}

-- a dictionary from ids, its last write first
abbrev pub Table : Type 0
Table = List (Uuid × ℕ)

abbrev pub named : Uuid → Uuid × ℕ → Bool
named k (j, n) = j == k

abbrev pub value_of : Option (Uuid × ℕ) → Attempt ℕ
value_of none = raises structural_planning_failed
value_of (some (j, n)) = returns n

-- table[key]; `build_plan` makes a missing key this error
unfoldable pub lookup : Table → Uuid → Attempt ℕ
lookup table key = value_of (find (named key) table)

-- max(table[k] for k in ids) and min(…), from the value of the first id
unfoldable pub fold_lookup : (ℕ → ℕ → ℕ) → Table → ℕ → List Uuid → Attempt ℕ
fold_lookup f table n [] = returns n
fold_lookup f table n (k ∷ ks) = lookup table k >>= λ m. fold_lookup f table (f n m) ks

unfoldable pub over_group : (ℕ → ℕ → ℕ) → Table → List Uuid → Attempt ℕ
over_group f table [] = raises structural_planning_failed
over_group f table (k ∷ ks) = lookup table k >>= λ n. fold_lookup f table n ks

-- what the loops write: `reducers`, `levels` and `positions`
pub record Reducing : Type 0 where
  pub reducers : List ReductionNode
  pub levels : Table
  pub positions : Table

-- what `reduce_group` takes from its surroundings: the profile, the length of `chunks` and the id of the
-- first unit
pub record Frame : Type 0 where
  pub profile : DigestionProfile
  pub chunk_count : ℕ
  pub root : Uuid

-- current[offset:offset+capacity] for the offsets of the range; as many rounds as ids are enough
unfoldable pub groups : ℕ → ℕ → List Uuid → List (List Uuid)
groups capacity fuel [] = []
groups capacity zero (k ∷ ks) = []
groups capacity (suc fuel) (k ∷ ks) =
    take capacity (k ∷ ks) ∷ groups capacity fuel (drop capacity (k ∷ ks))

module _ (c : Codec) (f : Frame) (unit : StructuralUnit) where
  unfoldable pub per_child : ℕ
  per_child = f.profile.max_result_characters + 1024

  -- `empty`, with a path
  abbrev pub empty_request : List Text → StageRequest
  empty_request path = record {
    stage_id = f.root;
    stage = reduction;
    profile = f.profile;
    structural_path = path;
    source_data = [];
    children = [];
  }

  -- base + len(encode(…)) + 512
  unfoldable pub raw_overhead : ℕ
  raw_overhead =
      request_size c (empty_request []) + c.encoded_request (empty_request unit.path) + 512

  -- the number of children that a stage can take, and the overhead that its estimate starts with;
  -- a difference that is negative in the source is refused below, as 0 is
  unfoldable pub capacity_of : Option ManagedInputBudget → ℕ × ℕ
  capacity_of none =
      let overhead = raw_overhead in
      (
        min f.profile.max_fan_in
            ((f.profile.context_tokens - f.profile.reserved_output_tokens - overhead) / per_child),
        overhead,
      )
  capacity_of (some b) =
      let raw = raw_overhead in
      let overhead = reduction_size c b unit.path 0 in
      (
        min f.profile.max_fan_in (
            min
              ((f.profile.context_tokens - f.profile.reserved_output_tokens - raw) / b.child_bytes)
              ((b.input_bytes - overhead) / b.child_bytes)),
        overhead,
      )

  unfoldable pub child_tokens : Option ManagedInputBudget → ℕ
  child_tokens none = per_child
  child_tokens (some b) = b.child_bytes

  -- the smallest capacity that goes on
  unfoldable pub least_capacity : Option ManagedInputBudget → List Uuid → ℕ
  least_capacity none children = 2
  least_capacity (some b) children = min 2 (length children)

  abbrev pub node_for : ℕ → ℕ → List Uuid → ReductionNode
  node_for overhead level group = record {
    stage_id = c.node_id unit.structural_unit_id group;
    structural_parent = unit.structural_unit_id;
    children = group;
    level = level;
    path = unit.path;
    estimated_tokens = overhead + length group * child_tokens f.profile.managed_input_budget;
  }

  abbrev pub with_node : ReductionNode → ℕ → Reducing → Reducing
  with_node n position s = record {
    reducers = s.reducers ++ n ∷ [];
    levels = (n.stage_id, n.level) ∷ s.levels;
    positions = (n.stage_id, position) ∷ s.positions;
  }

  -- the last test of the body of the inner loop
  unfoldable pub within_steps : ReductionNode → Reducing → Attempt (Uuid × Reducing)
  within_steps n s =
      unless (leb (f.chunk_count + length s.reducers + 2) f.profile.max_steps)
        synthesis_limit_exceeded (returns (n.stage_id, s))

  -- the body of the inner loop from the level on
  unfoldable pub reduce_at : ℕ → List Uuid → Reducing → ℕ → Attempt (Uuid × Reducing)
  reduce_at overhead group s level =
      unless (leb level f.profile.max_depth) synthesis_limit_exceeded (
        over_group min s.positions group >>= λ position.
        let n = node_for overhead level group in within_steps n (with_node n position s))

  -- the body of the inner loop
  unfoldable pub reduce_one : ℕ → List Uuid → Reducing → Attempt (Uuid × Reducing)
  reduce_one overhead group s =
      over_group max s.levels group >>= λ n. reduce_at overhead group s (suc n)

  abbrev pub prepend : Uuid → List Uuid × Reducing → Attempt (List Uuid × Reducing)
  prepend key (keys, s) = returns (key ∷ keys, s)

  -- the inner loop, with `following`
  unfoldable pub reduce_all : ℕ → List (List Uuid) → Reducing → Attempt (List Uuid × Reducing)
  reduce_all overhead [] s = returns ([], s)
  reduce_all overhead (g ∷ gs) s =
      reduce_one overhead g s >>= λ (key, s'). reduce_all overhead gs s' >>= prepend key

  abbrev pub single : List Uuid → Option Uuid
  single (k ∷ []) = some k
  single _ = none

  -- `while True`
  unfoldable pub rounds : ℕ → ℕ → ℕ → List Uuid → Reducing → Attempt (Uuid × Reducing)
  rounds zero capacity overhead current s = exhausted
  rounds (suc fuel) capacity overhead current s =
      reduce_all overhead (groups capacity (length current) current) s >>= λ (following, s').
      elim (single following) [
        | some k ↦ returns (k, s')
        | none ↦ rounds fuel capacity overhead following s'
      ]

  abbrev pub as_output : Uuid × Reducing → Attempt (Option Uuid × Reducing)
  as_output (k, s) = returns (some k, s)

  -- from the test of the capacity on
  unfoldable pub reduce_within : ℕ × ℕ → List Uuid → Reducing → Attempt (Option Uuid × Reducing)
  reduce_within (capacity, overhead) children s =
      unless (leb (least_capacity f.profile.managed_input_budget children) capacity)
        synthesis_limit_exceeded
        (rounds (length children) capacity overhead children s >>= as_output)

  -- `reduce_group`
  unfoldable pub reduce_group : List Uuid → Reducing → Attempt (Option Uuid × Reducing)
  reduce_group [] s = returns (none, s)
  reduce_group (k ∷ ks) s = reduce_within (capacity_of f.profile.managed_input_budget) (k ∷ ks) s
