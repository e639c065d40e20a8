-- ===== src/Retrieval/Fusion.antt =====
-- What `fuse_rankings` of rag/hybrid_retriever.py keeps: the items of both rankings, and no other.
use estudio_polymind_llm_orc.Prelude.{
  ℕ, suc, ◌≡◌, refl, ap, ◌∙◌, subst, String, Bool, true, false, ◌||◌, Bool-cases, inl, inr, Option,
  none, some, List, [], ◌∷◌, eq_iff, any, update, All, All-map, arith, any-sort_by, any-append,
  &&-eq-true, ◌+◌,
}
use estudio_polymind_llm_orc.Retrieval.{
  Item, Identity, publication, legacy, record_identity, same_name, same_identity, Scores, Row,
  is_row, add_score, with_row, scored, in_seen, rank_items, fuse_rankings,
}

same_name→≡ : (a b : Option String) → same_name a b ≡ true → a ≡ b
same_name→≡ none none h = refl
same_name→≡ (some a) (some b) h = ap some ((eq_iff a b).0 h)
same_name→≡ none (some b) h = cc
same_name→≡ (some a) none h = cc

same_identity→≡ : (a b : Identity) → same_identity a b ≡ true → a ≡ b
same_identity→≡ (publication a) (publication b) h = ap publication ((eq_iff a b).0 h)
same_identity→≡ (legacy a b) (legacy c d) h =
    let (x, y) = &&-eq-true (same_name a c) (same_name b d) h in
    cc (same_name→≡ a c x, same_name→≡ b d y)
same_identity→≡ (publication a) (legacy c d) h = cc
same_identity→≡ (legacy a b) (publication c) h = cc

same_name_refl : (a : Option String) → same_name a a ≡ true
same_name_refl none = refl
same_name_refl (some a) = (eq_iff a a).1 refl

same_identity_refl : (a : Identity) → same_identity a a ≡ true
same_identity_refl (publication a) = (eq_iff a a).1 refl
same_identity_refl (legacy a b) = rw (same_name_refl a, same_name_refl b) refl

-- an item of the identity
abbrev pub is_item : Identity → Item → Bool
is_item key item = same_identity (record_identity item) key

any-update :
    {A : Type 0} (p q : A → Bool) (g : A → A) (xs : List A)
    → ((x : A) → p (g x) ≡ p x)
    → any p (update q g xs) ≡ any p xs
any-update p q g [] h = refl
any-update p q g (x ∷ xs) h = elim (Bool-cases (q x)) [
  | inl c ↦ rw (c, h x, any-update p q g xs h) refl
  | inr c ↦ rw (c, any-update p q g xs h) refl
]

module _ {S : Type 0} (f : Scores S) (k : ℕ) (before : Row S → Row S → Bool) where
  -- a row of the identity is there
  abbrev There : List (Row S) → Identity → Type 0
  There fused key = any (is_row f k before key) fused ≡ true

  any-with_row :
      (j : Identity) (item : Item) (fused : List (Row S))
      → any (is_row f k before j) (with_row f k before item (record_identity item) fused)
        ≡ any (is_row f k before j) fused || is_item j item
  any-with_row j item fused =
      elim (Bool-cases (any (is_row f k before (record_identity item)) fused)) [
        | inl e ↦ rw e (elim (Bool-cases (is_item j item)) [
          | inl s ↦
              let here = subst (There fused) (same_identity→≡ (record_identity item) j s) e in
              ground (arith, here, s)
          | inr s ↦ ground (arith, s)
        ])
        | inr e ↦
            rw (e, any-append (is_row f k before j) fused ((item, f.nothing) ∷ [])) (or_false _ _)
      ]
    where
      or_false : (b x : Bool) → (b || (x || false)) ≡ (b || x)
      or_false b x = ground arith

  any-scored :
      (j : Identity) (item : Item) (rank : ℕ) (fused : List (Row S))
      → any (is_row f k before j) (scored f k before item (record_identity item) rank fused)
        ≡ any (is_row f k before j) fused || is_item j item
  unfolding scored
  any-scored j item rank fused =
      any-update (is_row f k before j) (is_row f k before (record_identity item))
        (add_score f k before (f.reciprocal (k + rank)))
        (with_row f k before item (record_identity item) fused) (λ (i, s). refl)
      ∙ any-with_row j item fused

  -- an identity among the seen ones has its row
  seen-There :
      (fused : List (Row S)) (seen : List Identity) (key : Identity)
      → All (There fused) seen
      → in_seen f k before key seen ≡ true
      → There fused key
  seen-There fused [] key a h = cc
  seen-There fused (s ∷ seen) key (t, a) h = elim (Bool-cases (same_identity s key)) [
    | inl e ↦ subst (There fused) (same_identity→≡ s key e) t
    | inr e ↦ seen-There fused seen key a (ground (arith, h, e))
  ]

  There-scored :
      (j : Identity) (item : Item) (rank : ℕ) (fused : List (Row S))
      → There fused j
      → There (scored f k before item (record_identity item) rank fused) j
  There-scored j item rank fused t = let e = any-scored j item rank fused in ground (arith, e, t)

  scored-There :
      (item : Item) (rank : ℕ) (fused : List (Row S))
      → There (scored f k before item (record_identity item) rank fused) (record_identity item)
  scored-There item rank fused =
      let e = any-scored (record_identity item) item rank fused in
      let r = same_identity_refl (record_identity item) in ground (arith, e, r)

  any-rank_items :
      (j : Identity) (rank : ℕ) (seen : List Identity) (items : List Item) (fused : List (Row S))
      → All (There fused) seen
      → any (is_row f k before j) (rank_items f k before rank seen items fused)
        ≡ any (is_row f k before j) fused || any (is_item j) items
  unfolding rank_items
  any-rank_items j rank seen [] fused a = ground arith
  any-rank_items j rank seen (item ∷ items) fused a =
      elim (Bool-cases (in_seen f k before (record_identity item) seen)) [
        | inl e ↦
            rw (rank_items, e, any-rank_items j (suc rank) seen items fused a)
              (elim (Bool-cases (is_item j item)) [
                | inl s ↦
                    let t =
                      subst (There fused) (same_identity→≡ (record_identity item) j s)
                        (seen-There fused seen (record_identity item) a e) in
                    ground (arith, t, s)
                | inr s ↦ ground (arith, s)
              ])
        | inr e ↦
            let next =
              any-rank_items j (suc rank) (record_identity item ∷ seen) items
                (scored f k before item (record_identity item) rank fused)
                (
                  scored-There item rank fused,
                  All-map (There fused)
                      (There (scored f k before item (record_identity item) rank fused))
                      (λ i t. There-scored i item rank fused t) seen a,
                ) in
            rw (rank_items, e, next, any-scored j item rank fused)
              (or_assoc (any (is_row f k before j) fused) (is_item j item) (any (is_item j) items))
      ]
    where
      or_assoc : (a b c : Bool) → ((a || b) || c) ≡ (a || (b || c))
      or_assoc a b c = ground arith

  -- An identity has a fused row exactly if an item of the dense or of the sparse ranking carries
  -- it, so that neither ranking loses one and none is invented.
  pub fuse_rankings-any :
      (j : Identity) (dense sparse : List Item)
      → any (is_row f k before j) (fuse_rankings f k before dense sparse)
        ≡ any (is_item j) dense || any (is_item j) sparse
  unfolding fuse_rankings
  fuse_rankings-any j dense sparse =
      any-sort_by (is_row f k before j) before
        (rank_items f k before 1 [] sparse (rank_items f k before 1 [] dense []))
      ∙ any-rank_items j 1 [] sparse (rank_items f k before 1 [] dense []) tt
      ∙ ap (λ b. b || any (is_item j) sparse) (any-rank_items j 1 [] dense [] tt)
