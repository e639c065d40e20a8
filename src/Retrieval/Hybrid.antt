-- ===== src/Retrieval/Hybrid.antt =====
-- `hybrid_retrieve` of rag/hybrid_retriever.py. The two searches are parameters, and so is the
-- arithmetic of floats. A hit carries its source and its chunk id.
use estudio_polymind_llm_orc.Prelude.{
  ℕ, suc, ◌+◌, String, Bool, ◌&&◌, List, [], ◌∷◌, ◌++◌, str_eq, map, any, update, select, sort_by,
  take, if◌then◌else◌,
}
use estudio_polymind_llm_orc.Retrieval.{Scores}

pub record Hit : Type 0 where
  pub source : String
  pub chunk_id : String

-- the two keys agree
abbrev pub same_hit : Hit → Hit → Bool
same_hit a b = str_eq a.source b.source && str_eq a.chunk_id b.chunk_id

-- a hit with its score
abbrev pub Scored : Type 0 → Type 0
Scored S = Hit × S

-- the further operations on scores: rounding to five places, the product with 0.8, and two orders
pub record Ranks (S : Type 0) : Type 0 where
  pub scores : Scores S
  pub round5 : S → S
  pub fraction : S → S
  pub higher : S → S → Bool
  pub at_least : S → S → Bool

-- the searches, by a query and a number of results
pub record Searches : Type 0 where
  pub retrieve : String → ℕ → List Hit
  pub bm25_search : String → ℕ → List Hit

module _ {S : Type 0} (f : Ranks S) (rrf_k : ℕ) where
  abbrev pub is_hit : Hit → Scored S → Bool
  is_hit h (g, s) = same_hit g h

  abbrev pub with_hit : Hit → List (Scored S) → List (Scored S)
  with_hit h fused = if any (is_hit h) fused then fused else fused ++ (h, f.scores.nothing) ∷ []

  abbrev pub add_rank : ℕ → Scored S → Scored S
  add_rank rank (h, s) = (h, f.scores.plus s (f.scores.reciprocal (rrf_k + rank)))

  -- the loop over the results of one search, from a rank on
  unfoldable pub fuse_hits : ℕ → List Hit → List (Scored S) → List (Scored S)
  fuse_hits rank [] fused = fused
  fuse_hits rank (h ∷ hits) fused =
      fuse_hits (suc rank) hits (update (is_hit h) (add_rank rank) (with_hit h fused))

  abbrev pub rounded : List (Scored S) → List (Scored S)
  rounded = map (λ (h, s). (h, f.round5 s))

  abbrev pub by_score : Scored S → Scored S → Bool
  by_score (g, s) (h, t) = f.higher s t

  -- the first result of each key
  unfoldable pub unique_results : List Hit → List (Scored S) → List (Scored S)
  unique_results seen [] = []
  unique_results seen ((h, s) ∷ results) =
      let rest = unique_results seen results in
      let rest_after = unique_results (h ∷ seen) results in
      if any (same_hit h) seen then rest else (h, s) ∷ rest_after

  -- the results that reach a part of the best score
  abbrev pub relevant : List (Scored S) → List (Scored S)
  relevant [] = []
  relevant ((h, best) ∷ results) =
      select (λ (g, s). f.at_least s (f.fraction best)) ((h, best) ∷ results)

  -- `hybrid_retrieve`
  unfoldable pub hybrid_retrieve : Searches → String → ℕ → List (Scored S)
  hybrid_retrieve c query top_k =
      let fused =
        fuse_hits 1 (c.bm25_search query top_k) (fuse_hits 1 (c.retrieve query top_k) []) in
      take top_k (relevant (unique_results [] (sort_by by_score (rounded fused))))
