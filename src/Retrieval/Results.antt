-- ===== src/Retrieval/Results.antt =====
-- What `hybrid_retrieve` of rag/hybrid_retriever.py answers with.
use estudio_polymind_llm_orc.Prelude.{
  ℕ, zero, suc, ◌≡◌, ◌≤◌, refl, String, Bool, true, false, ◌||◌, str_eq_refl, Bool-cases, inl, inr,
  List, [], ◌∷◌, any, update, select, sort_by, take, length, All, All-map, All-update, All-append,
  All-sort_by, All-select, All-take, length-take-le, arith,
}
use estudio_polymind_llm_orc.Retrieval.Hybrid.{
  Hit, same_hit, Scored, Ranks, Searches, is_hit, with_hit, add_rank, fuse_hits, rounded, by_score,
  unique_results, relevant, hybrid_retrieve,
}

same_hit_refl : (h : Hit) → same_hit h h ≡ true
same_hit_refl h = rw (str_eq_refl h.source, str_eq_refl h.chunk_id) refl

-- a hit of one of the two lists
abbrev pub IsFound : List Hit → List Hit → Hit → Type 0
IsFound dense sparse h = (any (same_hit h) dense || any (same_hit h) sparse) ≡ true

All-own : (hits : List Hit) → All (λ h. any (same_hit h) hits ≡ true) hits
All-own [] = tt
All-own (h ∷ hits) = (
  ground (arith, same_hit_refl h),
  All-map (λ g. any (same_hit g) hits ≡ true) (λ g. any (same_hit g) (h ∷ hits) ≡ true)
      (λ g m. ground (arith, m)) hits (All-own hits),
)

-- no result has the key of an earlier one
abbrev pub DistinctKeys : {S : Type 0} → List (Scored S) → Type 0
DistinctKeys [] = Unit
DistinctKeys ((h, s) ∷ rs) = All (λ r. same_hit r.0 h ≡ false) rs × DistinctKeys rs

take-DistinctKeys :
    {S : Type 0} (n : ℕ) (rs : List (Scored S)) → DistinctKeys rs → DistinctKeys (take n rs)
take-DistinctKeys zero rs d = tt
take-DistinctKeys (suc n) [] d = tt
take-DistinctKeys (suc n) ((h, s) ∷ rs) (o, d) =
    (All-take (λ r. same_hit r.0 h ≡ false) n rs o, take-DistinctKeys n rs d)

select-DistinctKeys :
    {S : Type 0} (p : Scored S → Bool) (rs : List (Scored S))
    → DistinctKeys rs
    → DistinctKeys (select p rs)
select-DistinctKeys p [] d = tt
select-DistinctKeys p ((h, s) ∷ rs) (o, d) = elim (Bool-cases (p (h, s))) [
  | inl e ↦ rw e (All-select (λ r. same_hit r.0 h ≡ false) p rs o, select-DistinctKeys p rs d)
  | inr e ↦ rw e (select-DistinctKeys p rs d)
]

module _ {S : Type 0} (f : Ranks S) (rrf_k : ℕ) where
  module _ (Q : Hit → Type 0) where
    with_hit-All :
        (h : Hit) (fused : List (Scored S))
        → Q h
        → All (λ r. Q r.0) fused
        → All (λ r. Q r.0) (with_hit f rrf_k h fused)
    with_hit-All h fused q a = elim (Bool-cases (any (is_hit f rrf_k h) fused)) [
      | inl e ↦ rw e a
      | inr e ↦ rw e (All-append (λ r. Q r.0) fused ((h, f.scores.nothing) ∷ []) a (q, tt))
    ]

    rounded-All :
        (rs : List (Scored S)) → All (λ r. Q r.0) rs → All (λ r. Q r.0) (rounded f rrf_k rs)
    rounded-All [] a = tt
    rounded-All ((h, s) ∷ rs) (q, a) = (q, rounded-All rs a)

    relevant-All :
        (rs : List (Scored S)) → All (λ r. Q r.0) rs → All (λ r. Q r.0) (relevant f rrf_k rs)
    relevant-All [] a = tt
    relevant-All ((h, s) ∷ rs) a =
        All-select (λ r. Q r.0) (λ (g, t). f.at_least t (f.fraction s)) ((h, s) ∷ rs) a

    fuse_hits-All :
        (rank : ℕ) (hits : List Hit) (fused : List (Scored S))
        → All Q hits
        → All (λ r. Q r.0) fused
        → All (λ r. Q r.0) (fuse_hits f rrf_k rank hits fused)
    unfolding fuse_hits
    fuse_hits-All rank [] fused q a = a
    fuse_hits-All rank (h ∷ hits) fused (q, qs) a =
        fuse_hits-All (suc rank) hits
          (update (is_hit f rrf_k h) (add_rank f rrf_k rank) (with_hit f rrf_k h fused)) qs
          (All-update (λ r. Q r.0) (is_hit f rrf_k h) (add_rank f rrf_k rank) (λ (g, s) p. p)
            (with_hit f rrf_k h fused) (with_hit-All h fused q a))

    unique_results-All :
        (seen : List Hit) (rs : List (Scored S))
        → All (λ r. Q r.0) rs
        → All (λ r. Q r.0) (unique_results f rrf_k seen rs)
    unfolding unique_results
    unique_results-All seen [] a = tt
    unique_results-All seen ((h, s) ∷ rs) (q, a) = elim (Bool-cases (any (same_hit h) seen)) [
      | inl e ↦ rw e (unique_results-All seen rs a)
      | inr e ↦ rw e (q, unique_results-All (h ∷ seen) rs a)
    ]

  -- a kept result is not among those seen
  unique_results-unseen :
      (seen : List Hit) (rs : List (Scored S))
      → All (λ r. any (same_hit r.0) seen ≡ false) (unique_results f rrf_k seen rs)
  unfolding unique_results
  unique_results-unseen seen [] = tt
  unique_results-unseen seen ((h, s) ∷ rs) = elim (Bool-cases (any (same_hit h) seen)) [
    | inl e ↦ rw e (unique_results-unseen seen rs)
    | inr e ↦ rw e (
      e,
      All-map (λ r. any (same_hit r.0) (h ∷ seen) ≡ false) (λ r. any (same_hit r.0) seen ≡ false)
          (λ r m. ground (arith, m)) (unique_results f rrf_k (h ∷ seen) rs)
          (unique_results-unseen (h ∷ seen) rs),
    )
  ]

  unique_results-DistinctKeys :
      (seen : List Hit) (rs : List (Scored S)) → DistinctKeys (unique_results f rrf_k seen rs)
  unfolding unique_results
  unique_results-DistinctKeys seen [] = tt
  unique_results-DistinctKeys seen ((h, s) ∷ rs) = elim (Bool-cases (any (same_hit h) seen)) [
    | inl e ↦ rw e (unique_results-DistinctKeys seen rs)
    | inr e ↦ rw e (
      All-map (λ r. any (same_hit r.0) (h ∷ seen) ≡ false) (λ r. same_hit r.0 h ≡ false)
          (λ r m. ground (arith, m)) (unique_results f rrf_k (h ∷ seen) rs)
          (unique_results-unseen (h ∷ seen) rs),
      unique_results-DistinctKeys (h ∷ seen) rs,
    )
  ]

  relevant-DistinctKeys :
      (rs : List (Scored S)) → DistinctKeys rs → DistinctKeys (relevant f rrf_k rs)
  relevant-DistinctKeys [] d = tt
  relevant-DistinctKeys ((h, s) ∷ rs) d =
      select-DistinctKeys (λ (g, t). f.at_least t (f.fraction s)) ((h, s) ∷ rs) d

  -- `hybrid_retrieve` answers with at most `top_k` results, each of them a hit of the vector search
  -- or of the BM25 search for the query, and no two of the same source and chunk.
  pub hybrid_retrieve_sound :
      (c : Searches) (query : String) (top_k : ℕ)
      → (length (hybrid_retrieve f rrf_k c query top_k) ≤ top_k)
        × All
            (λ r. IsFound (c.retrieve query top_k) (c.bm25_search query top_k) r.0)
            (hybrid_retrieve f rrf_k c query top_k)
        × DistinctKeys (hybrid_retrieve f rrf_k c query top_k)
  unfolding hybrid_retrieve
  hybrid_retrieve_sound c query top_k =
      let dense = c.retrieve query top_k in
      let sparse = c.bm25_search query top_k in
      let Q : Hit → Type 0 = IsFound dense sparse in
      let fused = fuse_hits f rrf_k 1 sparse (fuse_hits f rrf_k 1 dense []) in
      let sorted = sort_by (by_score f rrf_k) (rounded f rrf_k fused) in
      let kept = unique_results f rrf_k [] sorted in
      let found : All (λ r. Q r.0) fused =
        fuse_hits-All Q 1 sparse (fuse_hits f rrf_k 1 dense [])
          (All-map (λ h. any (same_hit h) sparse ≡ true) Q (λ h m. ground (arith, m)) sparse
            (All-own sparse))
          (fuse_hits-All Q 1 dense []
            (All-map (λ h. any (same_hit h) dense ≡ true) Q (λ h m. ground (arith, m)) dense
              (All-own dense))
            tt) in
      let in_order : All (λ r. Q r.0) sorted =
        All-sort_by (λ r. Q r.0) (by_score f rrf_k) (rounded f rrf_k fused)
          (rounded-All Q fused found) in
      (
        length-take-le top_k (relevant f rrf_k kept),
        All-take (λ r. Q r.0) top_k (relevant f rrf_k kept)
            (relevant-All Q kept (unique_results-All Q [] sorted in_order)),
        take-DistinctKeys top_k (relevant f rrf_k kept)
            (relevant-DistinctKeys kept (unique_results-DistinctKeys [] sorted)),
      )
