-- ===== src/Security/Authority.antt =====
-- `register`, `register_document`, `authorize`, `snapshot` and `_revalidate` of
-- security/authority.py.
use estudio_polymind_llm_orc.Prelude.{
  ℕ, ◌+◌, String, Bool, true, false, not, ◌&&◌, Option, none, some, List, [], ◌∷◌, ◌++◌, ◌==◌, ltb,
  leb, length, any, update, if◌then◌else◌,
}
use estudio_polymind_llm_orc.Jobs.Models.{Uuid, Micros, Scope, same_scope}
use estudio_polymind_llm_orc.Security.Models.{
  Action, publication_manage, tenant_admin, session_read, session_write, usage_read, document_read,
  document_analyze, document_share, document_delete, job_read, job_cancel, Principal, Resource,
  document, in_scope, Seen, AuthorizationSnapshot, same_identity, same_permissions, same_kind,
  authentication_required, access_denied, security_unavailable,
}
use estudio_polymind_llm_orc.Security.Tables.{
  Store, PrincipalRow, DocumentRow, Result, ok, err, ◌>>=◌, ◌>>◌, pure, unless, unless_else, found,
  principal_of, document_of, active, is_active,
}
use estudio_polymind_llm_orc.Security.Checks.{audit, audited, check_principal, check_document}

-- the row of a principal that registers again
abbrev pub reregistered : Principal → PrincipalRow → PrincipalRow
reregistered p r = record r { permissions = p.permissions; kind = p.kind; epoch = r.epoch + 1 }

-- the change of `principals` that `register` makes
unfoldable pub write_principal : Principal → Option PrincipalRow → Store → Result Store
write_principal p none s = ok (record s {
  principals =
      s.principals
      ++ record {
        owner = p.scope.owner;
        tenant = p.scope.tenant;
        identity = p.identity;
        permissions = p.permissions;
        kind = p.kind;
        epoch = 0;
        disabled = false;
      }
        ∷ [];
})
write_principal p (some row) s = do
  unless (same_identity row.identity p.identity && row.tenant == p.scope.tenant && not row.disabled)
  pure (
      if same_permissions row.permissions p.permissions && same_kind row.kind p.kind
      then s
      else record s {
        principals = update (λ r. r.owner == p.scope.owner) (reregistered p) s.principals;
      })

-- `register`
unfoldable pub register : ℕ → Principal → Micros → Store → Result Store
unfolding write_principal
register limit p now s = do
  unless_else (ltb now p.expires) authentication_required
  s' ← write_principal p (principal_of p.scope.owner s) s
  audit limit p "AUTHENTICATION" none true now s'

-- the document row of `register_document`, if it is there already
abbrev pub known_document : Uuid → Scope → Option DocumentRow → Result Bool
known_document id scope none = ok false
known_document id scope (some row) = do
  unless (row.owner == scope.owner && row.tenant == scope.tenant && is_active row.state)
  pure true

-- the transaction of `register_document`, for a document by its id and scope
unfoldable pub add_document :
    ℕ → Principal → Uuid → Scope → Micros → Store → Result (Unit {0} × Store)
add_document limit operator id scope now s = do
  check_principal operator now s
  unless (operator.permissions publication_manage && scope.tenant == operator.scope.tenant)
  owner ← found (principal_of scope.owner s)
  unless (owner.tenant == scope.tenant)
  known ← known_document id scope (document_of id s)
  if known then pure (tt, s) else do
    s' ← audit limit operator "DOCUMENT_REGISTER" (some id) true now (record s {
      documents =
          s.documents
          ++ record {
            document = id;
            tenant = scope.tenant;
            owner = scope.owner;
            epoch = 0;
            state = active;
          }
            ∷ [];
    })
    pure (tt, s')

-- `register_document`; the row of a refusal names no resource, since the argument is no UUID
unfoldable pub register_document :
    ℕ → Principal → Uuid → Scope → Micros → Store → Result (Unit {0}) × Store
register_document limit operator id scope now =
    audited limit operator "DOCUMENT_REGISTER" none now (add_document limit operator id scope now)

-- the tests of `authorize`
abbrev pub same_resource : Resource → Scope → Bool
same_resource (in_scope a) b = same_scope a b
same_resource _ b = false

abbrev pub of_document : Principal → Action → Resource → Micros → Store → Result (Unit {0})
of_document p action (document id) now s = check_document p action id now s >> ok tt
of_document p action _ now s = err access_denied

unfoldable pub allowed : Principal → Action → Resource → Micros → Store → Result (Unit {0})
allowed p publication_manage r now s = unless (p.permissions publication_manage)
allowed p tenant_admin r now s = unless (p.permissions tenant_admin)
allowed p session_read r now s = unless (same_resource r p.scope)
allowed p session_write r now s = unless (same_resource r p.scope)
allowed p usage_read r now s = unless (same_resource r p.scope)
allowed p action r now s = of_document p action r now s

-- the value of an action
unfoldable pub value : Action → String
value document_read = "DOCUMENT_READ"
value document_analyze = "DOCUMENT_ANALYZE"
value document_share = "DOCUMENT_SHARE"
value document_delete = "DOCUMENT_DELETE"
value job_read = "JOB_READ"
value job_cancel = "JOB_CANCEL"
value session_read = "SESSION_READ"
value session_write = "SESSION_WRITE"
value publication_manage = "PUBLICATION_MANAGE"
value usage_read = "USAGE_READ"
value tenant_admin = "TENANT_ADMIN"

abbrev pub is_ok : {A : Type 0} → Result A → Bool
is_ok (ok a) = true
is_ok (err e) = false

abbrev pub resource_id : Resource → Option Uuid
resource_id (document id) = some id
resource_id _ = none

-- a decision behind its row of the audit: no answer without the row
unfoldable pub decide :
    {A : Type 0}
    → ℕ
    → Principal
    → String
    → Option Uuid
    → Micros
    → Result A
    → Store
    → Result A × Store
unfolding audit
decide limit p action resource now verdict s =
    elim (audit limit p action resource (is_ok verdict) now s) [
      | err e ↦ (err e, s)
      | ok s' ↦ (elim verdict [ ok a ↦ (ok a, s') | err e ↦ (err access_denied, s') ])
    ]

-- `authorize`
unfoldable pub authorize :
    ℕ → Principal → Action → Resource → Micros → Store → Result (Unit {0}) × Store
unfolding allowed
authorize limit p action r now s =
    decide limit p (value action) (resource_id r) now
      (check_principal p now s >> allowed p action r now s) s

-- the documents of a snapshot, in order
unfoldable pub see : Principal → Action → List Uuid → Micros → Store → Result (List Seen)
see p action [] now s = ok []
see p action (d ∷ ds) now s = do
  r ← check_document p action d now s
  rest ← see p action ds now s
  pure (
      record {
        document = d;
        scope = record { tenant = r.tenant; owner = r.owner };
        epoch = r.epoch;
      }
      ∷ rest)

abbrev pub distinct : List Uuid → Bool
distinct [] = true
distinct (d ∷ ds) = not (any (λ e. e == d) ds) && distinct ds

-- the body of `snapshot`
unfoldable pub take_snapshot :
    Principal → List Uuid → Action → Micros → Store → Result AuthorizationSnapshot
unfolding see
take_snapshot p ids action now s = do
  row ← check_principal p now s
  documents ← see p action ids now s
  pure (record {
    principal = p;
    principal_epoch = row.epoch;
    documents = documents;
    action = action;
  })

-- `snapshot`
unfoldable pub snapshot :
    ℕ → Principal → List Uuid → Action → Micros → Store → Result AuthorizationSnapshot × Store
unfolding decide take_snapshot
snapshot limit p ids action now s =
    if leb (length ids) 32 && distinct ids
    then decide limit p "AUTHORIZE" none now (take_snapshot p ids action now s) s
    else (err access_denied, s)

-- the documents of `_revalidate`
unfoldable pub still_seen : AuthorizationSnapshot → List Seen → Micros → Store → Result (Unit {0})
still_seen x [] now s = ok tt
still_seen x (d ∷ ds) now s = do
  r ← check_document x.principal x.action d.document now s
  unless (r.epoch == d.epoch && same_scope d.scope (record { tenant = r.tenant; owner = r.owner }))
  still_seen x ds now s

-- `_revalidate`, and the guard of `release` before its body runs
unfoldable pub revalidate : AuthorizationSnapshot → Micros → Store → Result (Unit {0})
unfolding still_seen
revalidate x now s = do
  row ← check_principal x.principal now s
  unless (row.epoch == x.principal_epoch)
  still_seen x x.documents now s

-- `audit_authentication`: a row without principal
unfoldable pub audit_authentication : ℕ → Bool → Micros → Store → Result Store
audit_authentication limit accepted now s =
    if ltb (length s.audit) limit
    then ok (record s {
      audit =
          s.audit
          ++ record {
            at = now;
            principal = none;
            tenant = none;
            action = "AUTHENTICATION";
            resource = none;
            allowed = accepted;
          }
            ∷ [];
    })
    else err security_unavailable
