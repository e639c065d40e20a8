-- ===== src/Digestion/Digest.antt =====
-- `make_digest` of documents/digestion/validation.py: what of a document the accepted results cover, and
-- the status of the digest. The fraction is compared as an exact ratio, in millionths.
use estudio_polymind_llm_orc.Prelude.{
  ℕ, zero, suc, ◌+◌, ◌*◌, max, Bool, true, false, not, ◌&&◌, ◌||◌, Option, none, some, List, [],
  ◌∷◌, ◌==◌, ltb, leb, length, select, sort_by, if◌then◌else◌,
}
use estudio_polymind_llm_orc.Jobs.Models.{Uuid}
use estudio_polymind_llm_orc.Documents.Models.{Block, TextUnit, ExtractionArtifact}
use estudio_polymind_llm_orc.Digestion.Models.{
  DigestionProfile, SourcePiece, Plan, Coverage, DigestStatus, complete, partial, failed,
}
use estudio_polymind_llm_orc.Digestion.Sets.{has}
use estudio_polymind_llm_orc.Digestion.Attempt.{Attempt, returns, crashes, ◌>>=◌}
use estudio_polymind_llm_orc.Digestion.Evidence.{block_of}
use estudio_polymind_llm_orc.Digestion.Results.{nonempty}

-- a part of a block: its id and an interval of the text
pub record Part : Type 0 where
  pub block_id : Uuid
  pub start : ℕ
  pub end : ℕ

abbrev pub part_of : SourcePiece → Part
part_of p = record {
  block_id = p.evidence.block_id;
  start = p.evidence.span.start;
  end = p.evidence.span.end;
}

-- sorted() on pairs
abbrev pub earlier_part : Part → Part → Bool
earlier_part a b = ltb a.start b.start || (a.start == b.start && ltb a.end b.end)

-- the loop of `full` from a cursor on; `none` is the return of False in it
unfoldable pub covered : ℕ → List Part → Option ℕ
covered cursor [] = some cursor
covered cursor (p ∷ ps) = if ltb cursor p.start then none else covered (max cursor p.end) ps

abbrev pub ends_at : ℕ → Option ℕ → Bool
ends_at end none = false
ends_at end (some cursor) = cursor == end

abbrev pub parts_of : List Part → Uuid → List Part
parts_of parts key = select (λ (p : Part). p.block_id == key) parts

-- `full` on the span of the block
unfoldable pub full_span : List Part → Block → Bool
full_span ps b = ends_at b.span.end (covered b.span.start (sort_by earlier_part ps)) && nonempty ps

abbrev pub full_block : List Part → Option (TextUnit × Block) → Attempt Bool
full_block ps none = crashes
full_block ps (some (u, b)) = returns (full_span ps b)

module _ (a : ExtractionArtifact) where
  -- `full`
  unfoldable pub full : List Part → Uuid → Attempt Bool
  full parts key = full_block (parts_of parts key) (block_of a.units key)

  abbrev pub keep_if : Uuid → Bool → List Uuid → List Uuid
  keep_if key true keys = key ∷ keys
  keep_if key false keys = keys

  -- tuple(key for key in keys if full(parts, key))
  unfoldable pub full_keys : List Part → List Uuid → Attempt (List Uuid)
  full_keys parts [] = returns []
  full_keys parts (key ∷ keys) =
      full parts key >>= λ f. full_keys parts keys >>= λ rest. returns (keep_if key f rest)

-- fraction >= minimum_coverage
unfoldable pub at_least : DigestionProfile → ℕ → ℕ → Bool
at_least p n zero = p.minimum_coverage == 0
at_least p n (suc d) = leb (p.minimum_coverage * suc d) (n * 1000000)

-- the tests of the status
unfoldable pub is_complete : Coverage → Bool
is_complete c =
    not (nonempty c.failed)
    && not (nonempty c.unsupported)
    && length c.included == length c.eligible

unfoldable pub permitted_partial : DigestionProfile → Coverage → Bool
permitted_partial p c =
    p.allow_partial
    && nonempty c.included
    && at_least p (length c.included) (length c.eligible + length c.unsupported)
    && leb (length c.failed) p.max_failed_units

unfoldable pub status_of : DigestionProfile → Coverage → DigestStatus
status_of p c =
    if not (at_least p (length c.included) (length c.eligible + length c.unsupported))
    then failed
    else if is_complete c
    then complete
    else if permitted_partial p c
    then partial
    else failed

abbrev pub coverage_with : Plan → List Uuid → List Uuid → Coverage
coverage_with plan analyzed included = record {
  eligible = plan.eligible;
  analyzed = analyzed;
  failed = select (λ key. not (has analyzed key)) plan.eligible;
  skipped = plan.skipped;
  unsupported = plan.unsupported;
  included = included;
}
