-- ===== src/Documents/Coverage.antt =====
-- What a validated extraction of documents/models.py keeps of its text.
use estudio_polymind_llm_orc.Prelude.{
  ℕ, zero, suc, ◌-◌, ◌≤◌, ◌≡◌, refl, sym, ap, true, &&-eq-true, List, [], ◌∷◌, ◌++◌, ◌==◌, ==→≡,
  length, take, drop, All, arith,
}
use estudio_polymind_llm_orc.Documents.Models.{Text, Block, TextUnit, ExtractionArtifact, Library}
use estudio_polymind_llm_orc.Documents.Artifact.{
  valid_span, same_text, slice, valid_block, valid_blocks, valid_unit, valid_units, valid_graph,
}

-- the source texts of the blocks, one after the other
abbrev pub source_texts : List Block → Text
source_texts [] = []
source_texts (b ∷ bs) = b.source_text ++ source_texts bs

pub same_text→≡ : (s t : Text) → same_text s t ≡ true → s ≡ t
same_text→≡ [] [] h = refl
same_text→≡ (a ∷ s) (b ∷ t) h =
    let (x, y) = &&-eq-true (a == b) (same_text s t) h in cc (==→≡ a b x, same_text→≡ s t y)
same_text→≡ [] (b ∷ t) h = cc
same_text→≡ (a ∷ s) [] h = cc

drop-length : (t : Text) → drop (length t) t ≡ []
drop-length [] = refl
drop-length (c ∷ t) = drop-length t

take-drop : (n : ℕ) (t : Text) → take n t ++ drop n t ≡ t
take-drop zero t = refl
take-drop (suc n) [] = refl
take-drop (suc n) (c ∷ t) = ap (λ x. c ∷ x) (take-drop n t)

sub_zero : (e : ℕ) → e - 0 ≡ e
sub_zero e = omega arith

sub_suc : (s e : ℕ) → suc e - suc s ≡ e - s
sub_suc s e = omega arith

take-nil : (n : ℕ) → take {A = ℕ} n [] ≡ []
take-nil zero = refl
take-nil (suc n) = refl

-- what stands from `s` on is the slice up to `e` and what stands from `e` on
drop-slice : (s e : ℕ) (t : Text) → s ≤ e → drop s t ≡ slice s e t ++ drop e t
drop-slice zero e t h = rw (sub_zero e) (sym (take-drop e t))
drop-slice (suc s) zero t h = absurd (omega (arith, h))
drop-slice (suc s) (suc e) [] h = rw (take-nil (suc e - suc s)) refl
drop-slice (suc s) (suc e) (c ∷ t) h = rw (sub_suc s e) (drop-slice s e t (omega (arith, h)))

-- what a valid block says of its place
placed :
    (l : Library) (a : ExtractionArtifact) (u : TextUnit) (index covered line : ℕ) (b : Block)
    → valid_block l a u index covered line b ≡ true
    → (b.span.start ≤ b.span.end)
      × (b.span.start ≡ covered)
      × (same_text (slice b.span.start b.span.end u.text) b.source_text ≡ true)
unfolding valid_block valid_span
placed l a u index covered line b h = (ground arith, ground arith, ground arith)

valid_blocks-source_texts :
    (l : Library) (a : ExtractionArtifact) (u : TextUnit) (index covered line : ℕ) (bs : List Block)
    → valid_blocks l a u index covered line bs ≡ true
    → source_texts bs ≡ drop covered u.text
unfolding valid_blocks
valid_blocks-source_texts l a u index covered line [] h =
    rw (==→≡ covered (length u.text) h) (sym (drop-length u.text))
valid_blocks-source_texts l a u index covered line (b ∷ bs) h =
    let (v, rest) = &&-eq-true (valid_block l a u index covered line b) _ h in
    let (le, at, same) = placed l a u index covered line b v in
    rw (valid_blocks-source_texts l a u (suc index) b.span.end _ bs rest) (
      rw (sym (same_text→≡ (slice b.span.start b.span.end u.text) b.source_text same))
        (rw (sym at) (sym (drop-slice b.span.start b.span.end u.text le))))

valid_unit-blocks :
    (l : Library) (a : ExtractionArtifact) (ids : List ℕ) (u : TextUnit)
    → valid_unit l a ids u ≡ true
    → valid_blocks l a u 0 0 1 u.blocks ≡ true
unfolding valid_unit
valid_unit-blocks l a ids u h = ground arith

valid_units-source_texts :
    (l : Library) (a : ExtractionArtifact) (ids : List ℕ) (us : List TextUnit)
    → valid_units l a ids us ≡ true
    → All (λ (u : TextUnit). source_texts u.blocks ≡ u.text) us
unfolding valid_units
valid_units-source_texts l a ids [] h = tt
valid_units-source_texts l a ids (u ∷ us) h =
    let (v, rest) = &&-eq-true (valid_unit l a ids u) _ h in
    (
      valid_blocks-source_texts l a u 0 0 1 u.blocks (valid_unit-blocks l a ids u v),
      valid_units-source_texts l a (u.source_id ∷ ids) us rest,
    )

-- In an extraction that passes validation, the source texts of the blocks of every unit, one after
-- the other, are the text of the unit: nothing is lost, repeated or reordered.
pub valid_graph-source_texts :
    (l : Library) (a : ExtractionArtifact)
    → valid_graph l a ≡ true
    → All (λ (u : TextUnit). source_texts u.blocks ≡ u.text) a.units
unfolding valid_graph
valid_graph-source_texts l a h = valid_units-source_texts l a [] a.units (ground arith)
