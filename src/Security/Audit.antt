-- ===== src/Security/Audit.antt =====
-- The audit of security/authority.py: no decision without its row.
use estudio_polymind_llm_orc.Prelude.{
  ℕ, ◌≡◌, refl, String, ◌⊎◌, inl, inr, Option, [], ◌∷◌, ◌++◌, ltb, length, Bool-cases,
}
use estudio_polymind_llm_orc.Jobs.Models.{Uuid, Micros}
use estudio_polymind_llm_orc.Security.Models.{Action, Principal, Resource, security_unavailable}
use estudio_polymind_llm_orc.Security.Tables.{Store, Result, ok, err, ◌>>◌}
use estudio_polymind_llm_orc.Security.Checks.{audit, audit_row, check_principal}
use estudio_polymind_llm_orc.Security.Authority.{
  decide, is_ok, authorize, value, resource_id, allowed,
}

-- The audit after a decision: one more row, with the answer, or the database as it was behind the
-- error for a full audit.
abbrev pub Recorded :
    {A : Type 0} → Principal → String → Option Uuid → Micros → Store → Result A × Store → Type 0
Recorded p action resource now s x =
    (x.1.audit ≡ s.audit ++ audit_row p action resource (is_ok x.0) now ∷ [])
    ⊎ (x ≡ (err security_unavailable, s))

decide-Recorded :
    {A : Type 0} (limit : ℕ) (p : Principal) (action : String) (resource : Option Uuid)
    (now : Micros) (verdict : Result A) (s : Store)
    → Recorded p action resource now s (decide limit p action resource now verdict s)
unfolding decide
decide-Recorded limit p action resource now (ok a) s =
    elim (Bool-cases (ltb (length s.audit) limit)) [
      | inl c ↦ inl (rw (decide, audit, c) refl)
      | inr c ↦ inr (rw (decide, audit, c) refl)
    ]
decide-Recorded limit p action resource now (err e) s =
    elim (Bool-cases (ltb (length s.audit) limit)) [
      | inl c ↦ inl (rw (decide, audit, c) refl)
      | inr c ↦ inr (rw (decide, audit, c) refl)
    ]

-- Every call of `authorize` adds exactly one row to the audit, with the action, the resource and
-- the answer that the caller gets, or fails as unavailable and writes nothing.
pub authorize-Recorded :
    (limit : ℕ) (p : Principal) (action : Action) (r : Resource) (now : Micros) (s : Store)
    → Recorded p (value action) (resource_id r) now s (authorize limit p action r now s)
unfolding authorize
authorize-Recorded limit p action r now s =
    decide-Recorded limit p (value action) (resource_id r) now
      (check_principal p now s >> allowed p action r now s) s
