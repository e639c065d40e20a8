-- ===== src/Scenarios/Rankings.antt =====
-- Two rankings that share an item, fused with scores in parts of 1000.
use estudio_polymind_llm_orc.Prelude.{
  ◌≤◌, All, ℕ, ◌≡◌, refl, Bool, ◌||◌, none, some, [], ◌∷◌, length, sort_by, String, leb, ◌*◌, ltb,
  any, ◌+◌, ◌/◌,
}
use estudio_polymind_llm_orc.Retrieval.{
  Item, publication, record_identity, Scores, Row, is_row, scored, rank_items, fuse_rankings,
}
use estudio_polymind_llm_orc.Retrieval.Fusion.{is_item, fuse_rankings-any}
use estudio_polymind_llm_orc.Retrieval.Results.{IsFound, DistinctKeys, hybrid_retrieve_sound}
use estudio_polymind_llm_orc.Retrieval.Hybrid.{
  Hit, Ranks, Searches, fuse_hits, unique_results, hybrid_retrieve,
}

abbrev scores : Scores ℕ
scores = record { nothing = 0; plus = λ a b. a + b; reciprocal = λ n. 1000 / n }

abbrev ahead : Row ℕ → Row ℕ → Bool
ahead (i, a) (j, b) = ltb b a

abbrev old_item : Item
old_item = record { record_id = none; source = some "a.pdf"; chunk_id = some "1" }

abbrev new_item : Item
new_item = record { record_id = some "r"; source = some "a.pdf"; chunk_id = some "1" }

-- the dense ranking has the old item twice
two_rows :
    length (fuse_rankings scores 60 ahead (old_item ∷ old_item ∷ []) (new_item ∷ old_item ∷ [])) ≡ 2
unfolding fuse_rankings rank_items scored record_identity sort_by
two_rows = refl

fuse_rankings-any_example :
    any
      (is_row scores 60 ahead (publication "r"))
      (fuse_rankings scores 60 ahead (old_item ∷ []) (new_item ∷ old_item ∷ []))
    ≡ any (is_item (publication "r")) (old_item ∷ [])
      || any (is_item (publication "r")) (new_item ∷ old_item ∷ [])
fuse_rankings-any_example =
    fuse_rankings-any scores 60 ahead (publication "r") (old_item ∷ []) (new_item ∷ old_item ∷ [])

abbrev ranks : Ranks ℕ
ranks = record {
  scores = scores;
  round5 = λ s. s;
  fraction = λ s. s * 8 / 10;
  higher = λ a b. ltb b a;
  at_least = λ a b. leb b a;
}

abbrev hit : String → Hit
hit id = record { source = "a.pdf"; chunk_id = id }

abbrev searches : Searches
searches = record {
  retrieve = λ q n. hit "1" ∷ hit "2" ∷ [];
  bm25_search = λ q n. hit "3" ∷ hit "2" ∷ [];
}

-- a hit of both searches leads, and the others do not reach four fifths of its score
one_leads : hybrid_retrieve ranks 60 searches "query" 2 ≡ (hit "2", 32) ∷ []
unfolding hybrid_retrieve fuse_hits unique_results sort_by
one_leads = refl

hybrid_retrieve_sound_example :
    (length (hybrid_retrieve ranks 60 searches "query" 2) ≤ 2)
    × All
        (λ r. IsFound (hit "1" ∷ hit "2" ∷ []) (hit "3" ∷ hit "2" ∷ []) r.0)
        (hybrid_retrieve ranks 60 searches "query" 2)
    × DistinctKeys (hybrid_retrieve ranks 60 searches "query" 2)
hybrid_retrieve_sound_example = hybrid_retrieve_sound ranks 60 searches "query" 2
