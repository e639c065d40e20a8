-- ===== src/Security/Checks.antt =====
-- `_audit`, `audited_mutation`, `_principal` and `_document` of security/authority.py. The clock
-- shows one instant during a call.
use estudio_polymind_llm_orc.Prelude.{
  ℕ, String, Bool, true, false, not, ◌&&◌, ◌||◌, Option, some, [], ◌∷◌, ◌++◌, ◌==◌, ltb, length,
  any, is_some, if◌then◌else◌,
}
use estudio_polymind_llm_orc.Jobs.Models.{Uuid, Micros}
use estudio_polymind_llm_orc.Security.Models.{
  Action, document_read, document_analyze, document_share, document_delete, tenant_admin, Principal,
  same_identity, same_permissions, same_kind, security_unavailable, authentication_required,
  SecurityError,
}
use estudio_polymind_llm_orc.Security.Tables.{
  Store, AuditRow, PrincipalRow, DocumentRow, Result, ok, err, ◌>>=◌, ◌>>◌, pure, unless,
  unless_else, found, principal_of, document_of, is_active,
}

abbrev pub audit_row : Principal → String → Option Uuid → Bool → Micros → AuditRow
audit_row p action resource allowed now = record {
  at = now;
  principal = some p.scope.owner;
  tenant = some p.scope.tenant;
  action = action;
  resource = resource;
  allowed = allowed;
}

-- `_audit` for a principal
unfoldable pub audit : ℕ → Principal → String → Option Uuid → Bool → Micros → Store → Result Store
audit limit p action resource allowed now s =
    if ltb (length s.audit) limit
    then ok (record s { audit = s.audit ++ audit_row p action resource allowed now ∷ [] })
    else err security_unavailable

-- the second transaction of `audited_mutation`
abbrev pub after_denial : {A : Type 0} → SecurityError → Result Store → Store → Result A × Store
after_denial e (ok s') s = (err e, s')
after_denial e (err e') s = (err e', s)

-- `audited_mutation`: a refused mutation leaves a row of the audit and nothing else
unfoldable pub audited :
    {A : Type 0}
    → ℕ
    → Principal
    → String
    → Option Uuid
    → Micros
    → (Store → Result (A × Store))
    → Store
    → Result A × Store
unfolding audit
audited limit p action resource now body s = elim (body s) [
  | ok (a, s') ↦ (ok a, s')
  | err e ↦ after_denial e (audit limit p action resource false now s) s
]

-- the tests of `_principal` on the row
unfoldable pub is_current : Principal → PrincipalRow → Bool
is_current p r =
    not r.disabled
    && r.tenant == p.scope.tenant
    && same_identity r.identity p.identity
    && same_permissions r.permissions p.permissions
    && same_kind r.kind p.kind

-- `_principal`
unfoldable pub check_principal : Principal → Micros → Store → Result PrincipalRow
unfolding is_current principal_of
check_principal p now s = do
  unless_else (ltb now p.expires) authentication_required
  row ← found (principal_of p.scope.owner s)
  unless (is_current p row)
  pure row

-- the actions on a document
abbrev pub on_document : Action → Bool
on_document document_read = true
on_document document_analyze = true
on_document document_share = true
on_document document_delete = true
on_document _ = false

-- the actions that a grant allows
abbrev pub by_grant : Action → Bool
by_grant document_read = true
by_grant document_analyze = true
by_grant _ = false

-- SELECT 1 FROM grants WHERE document=? AND grantee=? AND revoked IS NULL
unfoldable pub has_grant : Uuid → Uuid → Store → Bool
has_grant id grantee s =
    any (λ g. g.document == id && g.grantee == grantee && not (is_some g.revoked)) s.grants

-- the owner, an administrator of the tenant, or a grantee
unfoldable pub may_act : Principal → Action → DocumentRow → Store → Bool
unfolding has_grant
may_act p action row s =
    row.owner == p.scope.owner
    || p.permissions tenant_admin
    || (by_grant action && has_grant row.document p.scope.owner s)

-- `_document`
unfoldable pub check_document : Principal → Action → Uuid → Micros → Store → Result DocumentRow
unfolding check_principal may_act document_of
check_document p action id now s = do
  check_principal p now s
  row ← found (document_of id s)
  unless (row.tenant == p.scope.tenant && is_active row.state)
  unless (on_document action)
  unless (may_act p action row s)
  pure row
