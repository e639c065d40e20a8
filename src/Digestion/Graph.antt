-- ===== src/Digestion/Graph.antt =====
-- The walk of `make_digest` (documents/digestion/validation.py) over the accepted claims, from those of
-- the root.
use estudio_polymind_llm_orc.Prelude.{
  ℕ, zero, suc, ◌+◌, Bool, true, false, Option, none, some, List, [], ◌∷◌, ◌++◌, find, length,
  sum_of, if◌then◌else◌, map, any, update,
}
use estudio_polymind_llm_orc.Jobs.Models.{Uuid}
use estudio_polymind_llm_orc.Digestion.Models.{evidence_validation_failed, Claim, Checkpoint}
use estudio_polymind_llm_orc.Digestion.Sets.{Key, same_key, has_key}
use estudio_polymind_llm_orc.Digestion.Attempt.{Attempt, returns, raises, exhausted}
use estudio_polymind_llm_orc.Digestion.Structure.{extend}
use estudio_polymind_llm_orc.Digestion.Results.{lineage_of}

-- a dictionary from keys to claims, in the order of the first writes
abbrev pub Claims : Type 0
Claims = List (Key × Claim)

abbrev pub at_key : Key → Key × Claim → Bool
at_key key row = same_key row.0 key

abbrev pub replace : Claim → Key × Claim → Key × Claim
replace k row = (row.0, k)

-- claims[key] = k
abbrev pub put : Key → Claim → Claims → Claims
put key k claims =
    if any (at_key key) claims
    then update (at_key key) (replace k) claims
    else claims ++ (key, k) ∷ []

unfoldable pub put_claims : Uuid → List Claim → Claims → Claims
put_claims stage [] claims = claims
put_claims stage (k ∷ ks) claims = put_claims stage ks (put (stage, k.claim_id) k claims)

-- `claims` of the checkpoints
unfoldable pub claims_of : List (Uuid × Checkpoint) → Claims → Claims
claims_of [] claims = claims
claims_of ((stage, cp) ∷ cps) claims = claims_of cps (put_claims stage cp.result.claims claims)

abbrev pub claim_at : Option (Key × Claim) → Option Claim
claim_at none = none
claim_at (some (key, k)) = some k

-- claims.get(key)
unfoldable pub claim_of : Claims → Key → Option Claim
claim_of claims key = claim_at (find (at_key key) claims)

-- [(stage, c.claim_id) for c in …]
abbrev pub roots_of : Uuid → List Claim → List Key
roots_of stage ks = map (λ (k : Claim). (stage, k.claim_id)) ks

-- `while todo`, with the end of `todo` in front; comes to `seen`
unfoldable pub follow : ℕ → Claims → List Key → List Key → Attempt (List Key)
follow fuel claims seen [] = returns seen
follow zero claims seen (key ∷ todo) = exhausted
follow (suc fuel) claims seen (key ∷ todo) = elim (has_key seen key) [
  | true ↦ follow fuel claims seen todo
  | false ↦ elim (claim_of claims key) [
    | none ↦ raises evidence_validation_failed
    | some k ↦ follow fuel claims (key ∷ seen) (extend todo (lineage_of k))
  ]
]

-- as many rounds as there are roots and links
abbrev pub rounds_of : Claims → List Key → ℕ
rounds_of claims todo = length todo + sum_of (λ (r : Key × Claim). length (lineage_of r.1)) claims

-- the walk from `todo`
unfoldable pub walk_claims : Claims → List Key → Attempt (List Key)
walk_claims claims todo = follow (rounds_of claims todo) claims [] (extend [] todo)
