-- ===== src/Retrieval.antt =====
-- rag/hybrid_retriever.py: the fusion of two rankings. Scores are floats of Python, whose sums,
-- reciprocals and order are parameters.
pub mod Fusion
pub mod Hybrid
pub mod Results
use estudio_polymind_llm_orc.Prelude.{
  ℕ, suc, String, Bool, true, false, ◌&&◌, Option, none, some, List, [], ◌∷◌, ◌++◌, str_eq, any,
  update, sort_by, if◌then◌else◌, ◌+◌,
}

-- an item of a ranking, with the fields that identify it
pub record Item : Type 0 where
  pub record_id : Option String
  pub source : Option String
  pub chunk_id : Option String

pub data Identity : Type 0 where
  publication : String → Identity
  legacy : Option String → Option String → Identity

abbrev pub named : String → Item → Bool → Identity
named id item true = legacy item.source item.chunk_id
named id item false = publication id

-- `record_identity`
unfoldable pub record_identity : Item → Identity
record_identity item = elim item.record_id [
  | none ↦ legacy item.source item.chunk_id
  | some id ↦ named id item (str_eq id "")
]

abbrev pub same_name : Option String → Option String → Bool
same_name none none = true
same_name (some a) (some b) = str_eq a b
same_name _ _ = false

abbrev pub same_identity : Identity → Identity → Bool
same_identity (publication a) (publication b) = str_eq a b
same_identity (legacy a b) (legacy c d) = same_name a c && same_name b d
same_identity _ _ = false

-- the operations on scores that the fusion uses
pub record Scores (S : Type 0) : Type 0 where
  pub nothing : S
  pub plus : S → S → S
  -- 1 / n
  pub reciprocal : ℕ → S

-- a value of `fused`: the item and its score
abbrev pub Row : Type 0 → Type 0
Row S = Item × S

module _ {S : Type 0} (f : Scores S) (k : ℕ) (before : Row S → Row S → Bool) where
  abbrev pub is_row : Identity → Row S → Bool
  is_row key (item, score) = same_identity (record_identity item) key

  abbrev pub add_score : S → Row S → Row S
  add_score s (item, score) = (item, f.plus score s)

  abbrev pub with_row : Item → Identity → List (Row S) → List (Row S)
  with_row item key fused =
      if any (is_row key) fused then fused else fused ++ (item, f.nothing) ∷ []

  -- fused[key]["rrf_score"] += 1 / (rrf_k + rank)
  unfoldable pub scored : Item → Identity → ℕ → List (Row S) → List (Row S)
  scored item key rank fused =
      update (is_row key) (add_score (f.reciprocal (k + rank))) (with_row item key fused)

  abbrev pub in_seen : Identity → List Identity → Bool
  in_seen key seen = any (λ s. same_identity s key) seen

  -- the loop over one ranking, from a rank on
  unfoldable pub rank_items : ℕ → List Identity → List Item → List (Row S) → List (Row S)
  rank_items rank seen [] fused = fused
  rank_items rank seen (item ∷ items) fused =
      let key = record_identity item in
      elim (in_seen key seen) [
        | true ↦ rank_items (suc rank) seen items fused
        | false ↦ rank_items (suc rank) (key ∷ seen) items (scored item key rank fused)
      ]

  -- `fuse_rankings`
  unfoldable pub fuse_rankings : List Item → List Item → List (Row S)
  fuse_rankings dense sparse = sort_by before (rank_items 1 [] sparse (rank_items 1 [] dense []))
