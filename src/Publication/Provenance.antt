-- ===== src/Publication/Provenance.antt =====
-- Where the records of a publication come from (documents/publication/planning.py): they quote the
-- extractions of the accepted documents.
use estudio_polymind_llm_orc.Prelude.{
  ◌≡◌, refl, sym, subst, Bool, true, false, inl, inr, Option, none, some, List, [], ◌∷◌, ◌++◌, All,
  All-map, All-append, All-sort_by, if◌then◌else◌, arith, Option-cases, ==_refl,
}
use estudio_polymind_llm_orc.Jobs.Models.{Uuid, Digest, Scope}
use estudio_polymind_llm_orc.Documents.Models.{Text, Block, TextUnit}
use estudio_polymind_llm_orc.Documents.Artifact.{same_text}
use estudio_polymind_llm_orc.Digestion.Models.{SourcePiece}
use estudio_polymind_llm_orc.Digestion.Evidence.{resolve}
use estudio_polymind_llm_orc.Digestion.Sets.{has}
use estudio_polymind_llm_orc.Digestion.Validation.{quotes}
use estudio_polymind_llm_orc.Digestion.Quoted.{Quoted, quotes-Quoted}
use estudio_polymind_llm_orc.Publication.Models.{
  Published, published, failed, ◌>>=◌, PublicationError, validation_error, AcceptedDocument,
  RetrievalRecord, PublicationManifest, ActivePublication, Identities, valid_record, valid_manifest,
}
use estudio_polymind_llm_orc.Publication.Planning.{
  Accepted, Piece, record_values, evidence_of, draft_of, verified, piece_records, block_records,
  unit_records, records, accept_one, accept_all, sorted_keys, manifest_values, manifest_draft,
  plan_publication,
}

module _ {A B : Type 0} where
  >>=_inv :
      (m : Published A) (f : A → Published B) {b : B}
      → (m >>= f) ≡ published b
      → (a : A) × (m ≡ published a) × (f a ≡ published b)
  >>=_inv (published a) f h = (a, refl, h)
  >>=_inv (failed e) f h = cc

module _ {A : Type 0} where
  if_inv :
      (c : Bool) (m : Published A) (e : PublicationError) {a : A}
      → (if c then m else failed e) ≡ published a
      → (c ≡ true) × (m ≡ published a)
  if_inv true m e h = (refl, h)
  if_inv false m e h = cc

abbrev pub as_piece : RetrievalRecord → SourcePiece
as_piece r = record { evidence = r.evidence; text = r.text }

module _ (i : Identities) (split : Text → List Piece) (profile : Digest) where
  verified-Quoted :
      (d : Accepted) (u : TextUnit) (b : Block) (p : Piece) (o : Option Text) (r : RetrievalRecord)
      → resolve d.artifact (evidence_of i split profile d u b p) ≡ o
      → verified i split profile o (draft_of i split profile d u b p) ≡ published r
      → Quoted d.artifact (as_piece r)
  unfolding record_values
  verified-Quoted d u b p none r e h = cc
  verified-Quoted d u b p (some t) r e h =
      let draft = draft_of i split profile d u b p in
      let (s, k) = if_inv (same_text t p.text) (record_values i split profile draft) _ h in
      let full = record draft { record_id = i.record_identity draft } in
      let (_, w) = if_inv (valid_record i full) (published full) validation_error k in
      let same : full ≡ r = cc in
      subst (λ x. Quoted d.artifact (as_piece x)) same
        (quotes-Quoted d.artifact (as_piece draft) (subst (λ x. quotes x p.text ≡ true) (sym e) s))

  abbrev AllQuoted : Accepted → List RetrievalRecord → Type 0
  AllQuoted d rs = All (λ r. Quoted d.artifact (as_piece r)) rs

  piece_records-Quoted :
      (d : Accepted) (u : TextUnit) (b : Block) (ps : List Piece) (rs : List RetrievalRecord)
      → piece_records i split profile d u b ps ≡ published rs
      → AllQuoted d rs
  unfolding piece_records
  piece_records-Quoted d u b [] rs h = subst (AllQuoted d) (let e : [] ≡ rs = cc in e) tt
  piece_records-Quoted d u b (p ∷ ps) rs h =
      let (r, e, k) =
        >>=_inv
          (verified i split profile (resolve d.artifact (evidence_of i split profile d u b p))
            (draft_of i split profile d u b p))
          _ h in
      let (rest, e', w) = >>=_inv (piece_records i split profile d u b ps) _ k in
      let same : r ∷ rest ≡ rs = cc in
      subst (AllQuoted d) same
        (verified-Quoted d u b p _ r refl e, piece_records-Quoted d u b ps rest e')

  block_records-Quoted :
      (d : Accepted) (u : TextUnit) (bs : List Block) (rs : List RetrievalRecord)
      → block_records i split profile d u bs ≡ published rs
      → AllQuoted d rs
  unfolding block_records
  block_records-Quoted d u [] rs h = subst (AllQuoted d) (let e : [] ≡ rs = cc in e) tt
  block_records-Quoted d u (b ∷ bs) rs h =
      let (rows, e, k) =
        >>=_inv
          (if has d.included b.block_id
            then piece_records i split profile d u b (split b.source_text)
            else published [])
          _ h in
      let (rest, e', w) = >>=_inv (block_records i split profile d u bs) _ k in
      let same : rows ++ rest ≡ rs = cc in
      subst (AllQuoted d) same (
        All-append _ rows rest (first (has d.included b.block_id) (split b.source_text) rows e)
          (block_records-Quoted d u bs rest e'))
    where
      first :
          (c : Bool) (ps : List Piece) (rows : List RetrievalRecord)
          → (if c then piece_records i split profile d u b ps else published []) ≡ published rows
          → AllQuoted d rows
      first true ps rows e = piece_records-Quoted d u b ps rows e
      first false ps rows e = subst (AllQuoted d) (let x : [] ≡ rows = cc in x) tt

  unit_records-Quoted :
      (d : Accepted) (us : List TextUnit) (rs : List RetrievalRecord)
      → unit_records i split profile d us ≡ published rs
      → AllQuoted d rs
  unfolding unit_records
  unit_records-Quoted d [] rs h = subst (AllQuoted d) (let e : [] ≡ rs = cc in e) tt
  unit_records-Quoted d (u ∷ us) rs h =
      let (rows, e, k) = >>=_inv (block_records i split profile d u u.blocks) _ h in
      let (rest, e', w) = >>=_inv (unit_records i split profile d us) _ k in
      let same : rows ++ rest ≡ rs = cc in
      subst (AllQuoted d) same (
        All-append _ rows rest (block_records-Quoted d u u.blocks rows e)
          (unit_records-Quoted d us rest e'))

  records-Quoted :
      (d : Accepted) (rs : List RetrievalRecord)
      → records i split profile d ≡ published rs
      → AllQuoted d rs
  unfolding records
  records-Quoted d rs h = unit_records-Quoted d d.artifact.units rs h

  -- a record quotes the extraction of an accepted document of one of the jobs
  abbrev pub Sourced : (Uuid → Option Accepted) → List Uuid → RetrievalRecord → Type 0
  Sourced accepted keys r =
      (key : Uuid) × (d : Accepted) × (has keys key ≡ true)
      × (accepted key ≡ some d)
      × Quoted d.artifact (as_piece r)

  module _ (accepted : Uuid → Option Accepted) where
    Sourced-cons :
        (k : Uuid) (keys : List Uuid) (r : RetrievalRecord)
        → Sourced accepted keys r
        → Sourced accepted (k ∷ keys) r
    Sourced-cons k keys r (key, d, h, e, q) = (key, d, ground (arith, h), e, q)

    accept_all-Sourced :
        (keys : List Uuid) (docs : List AcceptedDocument) (rs : List RetrievalRecord)
        → accept_all i split profile accepted keys ≡ published (docs, rs)
        → All (Sourced accepted keys) rs
    unfolding accept_all accept_one
    accept_all-Sourced [] docs rs h =
        subst (All (Sourced accepted [])) (let e : [] ≡ rs = cc in e) tt
    accept_all-Sourced (key ∷ keys) docs rs h = elim (Option-cases (accepted key)) [
      | inl n ↦ ground arith
      | inr (d, f) ↦
          let (rows, e, k) = >>=_inv (records i split profile d) _ (opened d f) in
          let ((docs', rest), e', w) = >>=_inv (accept_all i split profile accepted keys) _ k in
          let same : rows ++ rest ≡ rs = cc in
          subst (All (Sourced accepted (key ∷ keys))) same (
            All-append _ rows rest
              (All-map _ _ (λ r q. (key, d, ground (arith, ==_refl key), f, q)) rows
                (records-Quoted d rows e))
              (All-map _ _ (λ r q. Sourced-cons key keys r q) rest
                (accept_all-Sourced keys docs' rest e')))
    ]
      where
        opened :
            (d : Accepted)
            → accepted key ≡ some d
            → accept_one i split profile accepted d (accept_all i split profile accepted keys)
              ≡ published (docs, rs)
        opened d f = ground arith

-- Every record of a planned publication quotes its source: its text is that of a unit of the extraction,
-- at the span of its evidence, inside the block that the evidence names, where the extraction is that of
-- an accepted document of one of the jobs.
pub plan_publication-Sourced :
    (i : Identities) (split : Text → List Piece) (profile : Digest)
    (accepted : Uuid → Option Accepted) (scope : Scope) (job_ids : List Uuid)
    (base : ActivePublication) (previous : Option PublicationManifest) (m : PublicationManifest)
    → plan_publication i split profile accepted scope job_ids base previous ≡ published m
    → All
        (Sourced i split profile accepted (sorted_keys i split profile accepted job_ids))
        m.records
unfolding plan_publication manifest_values
plan_publication-Sourced i split profile accepted scope job_ids base previous m h =
    let ((docs, rows), e, k) =
      >>=_inv (accept_all i split profile accepted (sorted_keys i split profile accepted job_ids)) _
        h in
    let draft = manifest_draft i split profile accepted scope base previous (docs, rows) in
    let full = record draft { generation = i.manifest_identity draft } in
    let (_, w) = if_inv (valid_manifest i full) (published full) validation_error k in
    let same : full ≡ m = cc in
    subst
      (λ (x : PublicationManifest).
        All (Sourced i split profile accepted (sorted_keys i split profile accepted job_ids))
          x.records)
      same
      (All-sort_by _ _ rows (
        accept_all-Sourced i split profile accepted (sorted_keys i split profile accepted job_ids)
          docs rows e))
