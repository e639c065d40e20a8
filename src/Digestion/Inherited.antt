-- ===== src/Digestion/Inherited.antt =====
-- The propositions that `inherited_summary` (documents/digestion/validation.py) carries on: what the
-- children and the claims state, and nothing else.
use estudio_polymind_llm_orc.Prelude.{
  ◌≡◌, refl, sym, ap, ◌∙◌, Bool, true, false, ◌&&◌, ◌||◌, Bool-cases, inl, inr, Option, none, some,
  List, [], ◌∷◌, any, any-sort_by, any-append, update, arith,
}
use estudio_polymind_llm_orc.Documents.Models.{Text}
use estudio_polymind_llm_orc.Documents.Artifact.{same_text}
use estudio_polymind_llm_orc.Documents.Coverage.{same_text→≡}
use estudio_polymind_llm_orc.Digestion.Models.{
  Claim, StageResult, StageRequest, Proposition, Checkpoint,
}
use estudio_polymind_llm_orc.Digestion.Summary.{
  about, with_sides, proposition, merge, merge_all, merge_children, stance_of, merge_stance,
  merge_claims, propositions, earlier_subject, inherited_summary,
}

pub data Side : Type 0 where
  affirming denying : Side

abbrev pub pick : Side → Bool → Bool → Bool
pick affirming a d = a
pick denying a d = d

-- some proposition of the list is about `s` and takes the side
abbrev pub stated : Side → Text → List Proposition → Bool
stated side s = any (λ p. same_text p.subject s && pick side p.affirmed p.denied)

-- the claim takes the side on `s`
abbrev pub claims_side : Side → Text → Option (Text × Bool) → Bool
claims_side side s none = false
claims_side side s (some (t, true)) = same_text t s && pick side false true
claims_side side s (some (t, false)) = same_text t s && pick side true false

pick-or :
    (side : Side) (a b d e : Bool) → pick side (a || b) (d || e) ≡ pick side a d || pick side b e
pick-or affirming a b d e = refl
pick-or denying a b d e = refl

same_text_swap : (x s t : Text) → same_text x s ≡ true → same_text x t ≡ same_text s t
same_text_swap x s t h = ap (λ y. same_text y t) (same_text→≡ x s h)

or_assoc : (a b c : Bool) → (a || (b || c)) ≡ ((a || b) || c)
or_assoc a b c = ground arith

spread :
    (b x y rest more : Bool)
    → ((b && (x || y)) || (rest || (more && b && y))) ≡ (((b && x) || rest) || (b && y))
spread b x y rest more = ground arith

module _ (side : Side) (s : Text) where
  stated-update :
      (t : Text) (a d : Bool) (ps : List Proposition)
      → stated side s (update (about t) (with_sides a d) ps)
        ≡ stated side s ps || (any (about t) ps && same_text t s && pick side a d)
  stated-update t a d [] = refl
  stated-update t a d (p ∷ ps) = elim (Bool-cases (about t p)) [
    | inl e ↦
        rw
          (
            e,
            same_text_swap p.subject t s e,
            pick-or side p.affirmed a p.denied d,
            stated-update t a d ps,
          )
          (spread (same_text t s) (pick side p.affirmed p.denied) (pick side a d) _ _)
    | inr e ↦
        rw (e, stated-update t a d ps)
          (or_assoc (same_text p.subject s && pick side p.affirmed p.denied) _ _)
  ]

  stated-merge :
      (t : Text) (a d : Bool) (ps : List Proposition)
      → stated side s (merge t a d ps) ≡ stated side s ps || (same_text t s && pick side a d)
  unfolding merge
  stated-merge t a d ps = elim (Bool-cases (any (about t) ps)) [
    | inl e ↦ rw e (
        stated-update t a d ps
        ∙ ap (λ b. stated side s ps || (b && same_text t s && pick side a d)) e)
    | inr e ↦ rw e (any-append _ ps (proposition t a d ∷ []) ∙ last (stated side s ps) _)
  ]
    where
      last : (b x : Bool) → (b || (x || false)) ≡ (b || x)
      last b x = ground arith

  stated-merge_all :
      (ps qs : List Proposition)
      → stated side s (merge_all ps qs) ≡ stated side s qs || stated side s ps
  unfolding merge_all
  stated-merge_all [] qs = ground arith
  stated-merge_all (p ∷ ps) qs =
      rw
        (
          stated-merge_all ps (merge p.subject p.affirmed p.denied qs),
          stated-merge p.subject p.affirmed p.denied qs,
        )
        (sym (or_assoc (stated side s qs) _ _))

  -- some child states the side
  abbrev inherits : List Checkpoint → Bool
  inherits = any (λ (c : Checkpoint). stated side s c.propositions)

  stated-merge_children :
      (cs : List Checkpoint) (qs : List Proposition)
      → stated side s (merge_children cs qs)
        ≡ stated side s qs || any (λ (c : Checkpoint). stated side s c.propositions) cs
  unfolding merge_children
  stated-merge_children [] qs = ground arith
  stated-merge_children (c ∷ cs) qs =
      rw
        (stated-merge_children cs (merge_all c.propositions qs), stated-merge_all c.propositions qs)
        (sym (or_assoc (stated side s qs) _ _))

  stated-merge_stance :
      (o : Option (Text × Bool)) (qs : List Proposition)
      → stated side s (merge_stance o qs) ≡ stated side s qs || claims_side side s o
  stated-merge_stance none qs = ground arith
  stated-merge_stance (some (t, true)) qs = stated-merge t false true qs
  stated-merge_stance (some (t, false)) qs = stated-merge t true false qs

  stated-merge_claims :
      (ks : List Claim) (qs : List Proposition)
      → stated side s (merge_claims ks qs)
        ≡ stated side s qs
          || any (λ (k : Claim). claims_side side s (stance_of k.subject k.stance)) ks
  unfolding merge_claims
  stated-merge_claims [] qs = ground arith
  stated-merge_claims (k ∷ ks) qs =
      rw
        (
          stated-merge_claims ks (merge_stance (stance_of k.subject k.stance) qs),
          stated-merge_stance (stance_of k.subject k.stance) qs,
        )
        (sym (or_assoc (stated side s qs) _ _))

-- The propositions that a stage carries on are exactly those of its children and its claims: one of
-- them takes a side on a subject if and only if a proposition of a child does, or the stance of a claim
-- of the result. Generated output cannot take one away.
pub inherited_summary-stated :
    (side : Side) (s : Text) (r : StageResult) (q : StageRequest) (children : List Checkpoint)
    → stated side s (inherited_summary r q children).1 ≡ (
        any (λ (c : Checkpoint). stated side s c.propositions) children
        || any (λ (k : Claim). claims_side side s (stance_of k.subject k.stance)) r.claims)
unfolding inherited_summary propositions
inherited_summary-stated side s r q children =
    any-sort_by _ earlier_subject (merge_claims r.claims (merge_children children []))
    ∙ stated-merge_claims side s r.claims (merge_children children [])
    ∙ ap (λ b. b || any (λ (k : Claim). claims_side side s (stance_of k.subject k.stance)) r.claims)
        (stated-merge_children side s children [])
