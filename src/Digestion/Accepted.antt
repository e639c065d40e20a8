-- ===== src/Digestion/Accepted.antt =====
-- What the status of a digest says (documents/digestion/validation.py, `make_digest`): a complete one
-- covers every offset of every eligible block by pieces of the analyses that were accepted.
use estudio_polymind_llm_orc.Prelude.{
  ◌+◌, ◌≡◌, refl, sym, ap, ◌∙◌, subst, Bool, true, false, not, ◌&&◌, inl, inr, ◌⊎◌, Option, none,
  some, List, [], ◌∷◌, ◌++◌, ◌==◌, all, select, map, All, All-map, if◌then◌else◌, arith, length,
}
use estudio_polymind_llm_orc.Jobs.Models.{Uuid, ObjectRef}
use estudio_polymind_llm_orc.Documents.Models.{Text, ExtractionArtifact}
use estudio_polymind_llm_orc.Digestion.Models.{
  SourcePiece, AnalysisChunk, Plan, Claim, StageResult, Coverage, DigestionProfile, complete,
  partial, failed, Codec, coverage_failed,
}
use estudio_polymind_llm_orc.Digestion.Sets.{has, Key, has_key, same_set}
use estudio_polymind_llm_orc.Digestion.Attempt.{
  Attempt, returns, ◌>>=◌, unless, >>=_inv, unless_inv,
}
use estudio_polymind_llm_orc.Digestion.Evidence.{resolve}
use estudio_polymind_llm_orc.Digestion.Results.{is_unavailable, nonempty}
use estudio_polymind_llm_orc.Digestion.Graph.{Claims, claims_of, roots_of, walk_claims}
use estudio_polymind_llm_orc.Digestion.Digest.{
  Part, part_of, full_keys, is_complete, permitted_partial, status_of, coverage_with, at_least,
}
use estudio_polymind_llm_orc.Digestion.Making.{
  Checkpoints, result_at, Gathered, gather_pieces, gather_result, gather, with_piece, with_findings,
  resolved, empty_gathered, stages, expected,
}
use estudio_polymind_llm_orc.Digestion.Artifacts.{
  DigestArtifact, artifact_of, digest_from, make_digest, sections_of,
}
use estudio_polymind_llm_orc.Digestion.Complete.{Covered, full_keys-Covered}

abbrev pub accepted_in : Attempt StageResult → List SourcePiece → List Part
accepted_in (returns r) ps = if is_unavailable r.outcome then [] else map (λ p. part_of p) ps
accepted_in _ ps = []

-- the parts of the chunks whose results are not unavailable, in order
abbrev pub accepted : Checkpoints → List AnalysisChunk → List Part
accepted cps [] = []
accepted cps (ch ∷ chs) = accepted_in (result_at cps ch.chunk_id) ch.pieces ++ accepted cps chs

append_assoc : (xs ys zs : List Part) → (xs ++ ys) ++ zs ≡ xs ++ (ys ++ zs)
append_assoc [] ys zs = refl
append_assoc (x ∷ xs) ys zs = ap (λ ws. x ∷ ws) (append_assoc xs ys zs)

append_nil : (xs : List Part) → xs ++ [] ≡ xs
append_nil [] = refl
append_nil (x ∷ xs) = ap (λ ws. x ∷ ws) (append_nil xs)

module _ {A : Type 0} where
  if_inv :
      (b : Bool) (m n : Attempt A) (x : A)
      → (if b then m else n) ≡ returns x
      → ((b ≡ true) × (m ≡ returns x)) ⊎ ((b ≡ false) × (n ≡ returns x))
  if_inv true m n x h = inl (refl, h)
  if_inv false m n x h = inr (refl, h)

module _ (c : Codec) (a : ExtractionArtifact) where
  resolved_inv :
      (o : Option Text) (m : Attempt Gathered) (g : Gathered)
      → resolved c a o m ≡ returns g
      → m ≡ returns g
  resolved_inv none m g h = cc
  resolved_inv (some t) m g h = h

  -- both lists of parts grow by `ps`
  abbrev Adds : List Part → Gathered → Gathered → Type 0
  Adds ps g g' =
      (g'.analyzed_parts ≡ g.analyzed_parts ++ ps) × (g'.included_parts ≡ g.included_parts ++ ps)

  Adds-trans :
      (ps qs : List Part) (g h k : Gathered) → Adds ps g h → Adds qs h k → Adds (ps ++ qs) g k
  Adds-trans ps qs g h k x y = (
    y.0 ∙ ap (λ xs. xs ++ qs) x.0 ∙ append_assoc g.analyzed_parts ps qs,
    y.1 ∙ ap (λ xs. xs ++ qs) x.1 ∙ append_assoc g.included_parts ps qs,
  )

  Adds-nil : (g h : Gathered) → g ≡ h → Adds [] g h
  Adds-nil g h e =
      subst (Adds [] g) e (sym (append_nil g.analyzed_parts), sym (append_nil g.included_parts))

  gather_pieces-Adds :
      (ps : List SourcePiece) (g g' : Gathered)
      → gather_pieces c a ps g ≡ returns g'
      → Adds (map (λ p. part_of p) ps) g g'
  unfolding gather_pieces
  gather_pieces-Adds [] g g' h = Adds-nil g g' (cc)
  gather_pieces-Adds (p ∷ ps) g g' h =
      let rest =
        resolved_inv (resolve a p.evidence) (gather_pieces c a ps (with_piece c a p g)) g' h in
      Adds-trans (part_of p ∷ []) (map (λ p. part_of p) ps) g (with_piece c a p g) g' (refl, refl)
        (gather_pieces-Adds ps (with_piece c a p g) g' rest)

  gather_result-Adds :
      (seen : List Key) (ch : AnalysisChunk) (g g' : Gathered) (r : StageResult)
      → gather_result c a seen ch g r ≡ returns g'
      → Adds (accepted_in (returns r) ch.pieces) g g'
  unfolding gather_result
  gather_result-Adds seen ch g g' r h =
      let all_seen = all (λ (k : Claim). has_key seen (ch.chunk_id, k.claim_id)) r.claims in
      let pieces = gather_pieces c a ch.pieces (with_findings c a r.claims g) in
      elim (if_inv (is_unavailable r.outcome) (returns g) (unless all_seen coverage_failed pieces)
        g' h) [
          | inl (e, m) ↦ rw e (Adds-nil g g' (cc))
          | inr (e, m) ↦ rw e (
              gather_pieces-Adds ch.pieces (with_findings c a r.claims g) g'
                (unless_inv all_seen coverage_failed pieces m).1)
        ]

  gather-Adds :
      (cps : Checkpoints) (seen : List Key) (chs : List AnalysisChunk) (g g' : Gathered)
      → gather c a cps seen chs g ≡ returns g'
      → Adds (accepted cps chs) g g'
  unfolding gather
  gather-Adds cps seen [] g g' h = Adds-nil g g' (cc)
  gather-Adds cps seen (ch ∷ chs) g g' h =
      let (t, m, k) =
        >>=_inv (result_at cps ch.chunk_id >>= gather_result c a seen ch g)
          (gather c a cps seen chs) h in
      let (r, e, m) = >>=_inv (result_at cps ch.chunk_id) (gather_result c a seen ch g) m in
      let first : Adds (accepted_in (result_at cps ch.chunk_id) ch.pieces) g t =
        rw e (gather_result-Adds seen ch g t r m) in
      Adds-trans _ (accepted cps chs) g t g' first (gather-Adds cps seen chs t g' k)

only_complete :
    (x y z : Bool)
    → (if not x then failed else if y then complete else if z then partial else failed) ≡ complete
    → y ≡ true
only_complete true true z h = refl
only_complete true false true h = cc
only_complete true false false h = cc
only_complete false y z h = cc

-- the tests of a complete status
status_of-complete :
    (p : DigestionProfile) (v : Coverage) → status_of p v ≡ complete → is_complete v ≡ true
unfolding status_of
status_of-complete p v h =
    only_complete (at_least p (length v.included) (length v.eligible + length v.unsupported))
      (is_complete v) (permitted_partial p v) h

-- no key fails: each is among those analyzed
none_failed :
    (xs ys : List Uuid)
    → nonempty (select (λ key. not (has xs key)) ys) ≡ false
    → All (λ key. has xs key ≡ true) ys
none_failed xs [] h = tt
none_failed xs (y ∷ ys) h = (ground arith, none_failed xs ys (ground arith))

artifact_of-coverage :
    (c : Codec) (a : ExtractionArtifact) (plan : Plan) (cps : Checkpoints)
    (refs : List (Uuid × ObjectRef)) (claims : Claims) (seen : List Key) (root : StageResult)
    (g : Gathered) (v : Coverage) (d : DigestArtifact)
    → artifact_of c a plan cps refs claims seen root g v ≡ returns d
    → (d.status ≡ status_of plan.profile v) × (d.coverage ≡ v)
unfolding artifact_of
artifact_of-coverage c a plan cps refs claims seen root g v d h =
    let (s, e, k) = >>=_inv (sections_of cps plan.reducers plan.units) _ h in (cc, cc)

not-and-not : (x y z : Bool) → (not x && not y && z) ≡ true → (x ≡ false) × (y ≡ false)
not-and-not x y z h = (ground arith, ground arith)

-- what the tests of a complete status say of the coverage
is_complete-All :
    (plan : Plan) (analyzed included : List Uuid)
    → is_complete (coverage_with plan analyzed included) ≡ true
    → (nonempty plan.unsupported ≡ false) × All (λ key. has analyzed key ≡ true) plan.eligible
unfolding is_complete
is_complete-All plan analyzed included h =
    let v = coverage_with plan analyzed included in
    let (f, u) =
      not-and-not (nonempty v.failed) (nonempty plan.unsupported)
        (length included == length plan.eligible) h in
    (u, none_failed analyzed plan.eligible f)

digest_from-complete :
    (c : Codec) (a : ExtractionArtifact) (plan : Plan) (cps : Checkpoints)
    (refs : List (Uuid × ObjectRef)) (claims : Claims) (root : StageResult) (seen : List Key)
    (d : DigestArtifact)
    → digest_from c a plan cps refs claims root seen ≡ returns d
    → d.status ≡ complete
    → (nonempty plan.unsupported ≡ false) × All (Covered a (accepted cps plan.chunks)) plan.eligible
unfolding digest_from
digest_from-complete c a plan cps refs claims root seen d h s =
    let (g, e, k) = >>=_inv (gather c a cps seen plan.chunks empty_gathered) _ h in
    let (analyzed, e', k') = >>=_inv (full_keys a g.analyzed_parts plan.eligible) _ k in
    let (included, _, m) = >>=_inv (full_keys a g.included_parts plan.eligible) _ k' in
    let v = coverage_with plan analyzed included in
    let (st, _) = artifact_of-coverage c a plan cps refs claims seen root g v d m in
    let (supported, all) =
      is_complete-All plan analyzed included (status_of-complete plan.profile v (sym st ∙ s)) in
    let parts = (gather-Adds c a cps seen plan.chunks empty_gathered g e).0 in
    (
      supported,
      All-map _ _
          (λ key i.
            subst (λ ps. Covered a ps key) parts
              (full_keys-Covered a g.analyzed_parts key plan.eligible analyzed e' i))
          plan.eligible all,
    )

-- In a digest with the status COMPLETE no content was unsupported, and every offset of the block of every
-- eligible id lies in a part, of that block, of a chunk whose analysis is not unavailable.
pub make_digest-complete :
    (c : Codec) (a : ExtractionArtifact) (plan : Plan) (cps : Checkpoints)
    (refs : List (Uuid × ObjectRef)) (d : DigestArtifact)
    → make_digest c a plan cps refs ≡ returns d
    → d.status ≡ complete
    → (nonempty plan.unsupported ≡ false) × All (Covered a (accepted cps plan.chunks)) plan.eligible
unfolding make_digest
make_digest-complete c a plan cps refs d h s =
    let (_, m) =
      unless_inv (same_set (stages cps) (expected plan) && same_set (stages refs) (expected plan)) _
        _ h in
    let (root, _, k) = >>=_inv (result_at cps plan.root_id) _ m in
    let claims = claims_of cps [] in
    let (seen, _, n) = >>=_inv (walk_claims claims (roots_of plan.root_id root.claims)) _ k in
    digest_from-complete c a plan cps refs claims root seen d n s
