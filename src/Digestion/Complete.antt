-- ===== src/Digestion/Complete.antt =====
-- `full` of `make_digest` (documents/digestion/validation.py): a block that it finds full has every offset
-- in one of the parts.
use estudio_polymind_llm_orc.Prelude.{
  ℕ, ◌≤◌, ◌<◌, ◌≡◌, refl, sym, ap, ◌∙◌, subst, max, Bool, true, false, ◌&&◌, Bool-cases, inl, inr,
  ◌⊎◌, Option, none, some, List, [], ◌∷◌, ◌==◌, ==→≡, leb, ltb, any, select, arith, any-sort_by,
  sort_by, &&-eq-true,
}
use estudio_polymind_llm_orc.Jobs.Models.{Uuid}
use estudio_polymind_llm_orc.Documents.Models.{Block, TextUnit, ExtractionArtifact}
use estudio_polymind_llm_orc.Digestion.Sets.{has}
use estudio_polymind_llm_orc.Digestion.Attempt.{returns, >>=_inv}
use estudio_polymind_llm_orc.Digestion.Evidence.{block_of}
use estudio_polymind_llm_orc.Digestion.Digest.{
  Part, earlier_part, covered, ends_at, parts_of, full_span, full_block, full, keep_if, full_keys,
}

abbrev pub covers : ℕ → Part → Bool
covers o p = leb p.start o && ltb o p.end

-- the union of the parts leaves nothing out up to the cursor at the end
covered-covers :
    (o cursor end : ℕ) (ps : List Part)
    → covered cursor ps ≡ some end
    → cursor ≤ o
    → o < end
    → any (covers o) ps ≡ true
unfolding covered
covered-covers o cursor end [] h l m = ground arith
covered-covers o cursor end (p ∷ ps) h l m = elim (Bool-cases (ltb cursor p.start)) [
  | inl e ↦ ground arith
  | inr e ↦
      let rest : covered (max cursor p.end) ps ≡ some end = ground arith in
      elim (Bool-cases (ltb o p.end)) [
        | inl u ↦ ground arith
        | inr u ↦ ground (arith, covered-covers o (max cursor p.end) end ps rest (ground arith) m)
      ]
]

ends_at_inv : (end : ℕ) (o : Option ℕ) → ends_at end o ≡ true → o ≡ some end
ends_at_inv end none h = cc
ends_at_inv end (some cursor) h = ap some (==→≡ cursor end h)

full_span-covers :
    (o : ℕ) (ps : List Part) (b : Block)
    → full_span ps b ≡ true
    → b.span.start ≤ o
    → o < b.span.end
    → any (covers o) ps ≡ true
unfolding full_span
full_span-covers o ps b h l m =
    let (e, _) =
      &&-eq-true (ends_at b.span.end (covered b.span.start (sort_by earlier_part ps))) _ h in
    sym (any-sort_by (covers o) earlier_part ps)
    ∙ covered-covers o b.span.start b.span.end _ (ends_at_inv b.span.end _ e) l m

any-select : (p q : Part → Bool) (ps : List Part) → any q (select p ps) ≡ any (λ x. p x && q x) ps
any-select p q [] = refl
any-select p q (x ∷ ps) = ground (arith, any-select p q ps)

-- every offset of the block of the id is in a part of that block
abbrev pub Covered : ExtractionArtifact → List Part → Uuid → Type 0
Covered a parts key =
    (u : TextUnit) × (b : Block) × (block_of a.units key ≡ some (u, b))
    × ((o : ℕ)
        → b.span.start ≤ o
        → o < b.span.end
        → any (λ (p : Part). p.block_id == key && covers o p) parts ≡ true)

full_block-Covered :
    (a : ExtractionArtifact) (parts : List Part) (key : Uuid) (w : Option (TextUnit × Block))
    → block_of a.units key ≡ w
    → full_block (parts_of parts key) w ≡ returns true
    → Covered a parts key
full_block-Covered a parts key none e h = cc
full_block-Covered a parts key (some (u, b)) e h = (
  u,
  b,
  e,
  λ o l m.
      sym (any-select (λ p. p.block_id == key) (covers o) parts)
      ∙ full_span-covers o (parts_of parts key) b (cc) l m,
)

full-Covered :
    (a : ExtractionArtifact) (parts : List Part) (key : Uuid)
    → full a parts key ≡ returns true
    → Covered a parts key
unfolding full
full-Covered a parts key h = full_block-Covered a parts key (block_of a.units key) refl h

keep_if-has :
    (a : ExtractionArtifact) (key k : Uuid) (f : Bool) (rest : List Uuid)
    → has (keep_if a key f rest) k ≡ true
    → ((key == k) ≡ true) × (f ≡ true) ⊎ (has rest k ≡ true)
keep_if-has a key k true rest h = elim (Bool-cases (key == k)) [
  | inl e ↦ inl (e, refl)
  | inr e ↦ inr (ground arith)
]
keep_if-has a key k false rest h = inr h

pub full_keys-Covered :
    (a : ExtractionArtifact) (parts : List Part) (k : Uuid) (keys rs : List Uuid)
    → full_keys a parts keys ≡ returns rs
    → has rs k ≡ true
    → Covered a parts k
unfolding full_keys
full_keys-Covered a parts k [] rs h i = cc
full_keys-Covered a parts k (key ∷ keys) rs h i =
    let (f, e, m) = >>=_inv (full a parts key) _ h in
    let (rest, e', m') = >>=_inv (full_keys a parts keys) _ m in
    let same : keep_if a key f rest ≡ rs = cc in
    elim (keep_if-has a key k f rest (subst (λ xs. has xs k ≡ true) (sym same) i)) [
      | inl (t, y) ↦
          subst (Covered a parts) (==→≡ key k t) (full-Covered a parts key (e ∙ ap returns y))
      | inr j ↦ full_keys-Covered a parts k keys rest e' j
    ]
