-- ===== src/Security/Removal.antt =====
-- `tombstone`, `track_purge` and `disable_principal` of security/authority.py.
use estudio_polymind_llm_orc.Prelude.{
  ℕ, ◌+◌, true, not, ◌&&◌, ◌||◌, some, [], ◌∷◌, ◌++◌, ◌==◌, any, update, or_else, if◌then◌else◌,
}
use estudio_polymind_llm_orc.Jobs.Models.{Uuid, Micros}
use estudio_polymind_llm_orc.Security.Models.{Principal, tenant_admin, publication_manage}
use estudio_polymind_llm_orc.Security.Tables.{
  Store, PrincipalRow, DocumentRow, DocumentState, tombstoned, purge_pending, is_active, Result,
  ◌>>=◌, ◌>>◌, pure, unless, found, principal_of, document_of,
}
use estudio_polymind_llm_orc.Security.Checks.{audit, audited, check_principal}

abbrev pub tombstoned_row : DocumentRow → DocumentRow
tombstoned_row r = record r { state = tombstoned; epoch = r.epoch + 1 }

-- the UPDATEs of `tombstone`
unfoldable pub bury_document : Uuid → Micros → Store → Store
bury_document id now s = record s {
  documents = update (λ r. r.document == id) tombstoned_row s.documents;
  grants =
      update (λ g. g.document == id) (λ g. record g { revoked = some (or_else g.revoked now) })
        s.grants;
}

-- the writes of `tombstone`, between their two rows of the audit
unfoldable pub write_tombstone :
    ℕ → Principal → Uuid → Micros → Store → Result (DocumentState × Store)
write_tombstone limit p id now s = do
  asked ← audit limit p "DELETE_REQUESTED" (some id) true now s
  s' ← audit limit p "TOMBSTONED" (some id) true now (bury_document id now asked)
  pure (tombstoned, s')

-- the transaction of `tombstone`
unfoldable pub set_tombstone :
    ℕ → Principal → Uuid → Micros → Store → Result (DocumentState × Store)
set_tombstone limit p id now s = do
  check_principal p now s
  row ← found (document_of id s)
  unless
      (row.tenant == p.scope.tenant && (row.owner == p.scope.owner || p.permissions tenant_admin))
  if not (is_active row.state) then pure (row.state, s) else write_tombstone limit p id now s

-- `tombstone`
unfoldable pub tombstone : ℕ → Principal → Uuid → Micros → Store → Result DocumentState × Store
tombstone limit p id now = audited limit p "TOMBSTONED" (some id) now (set_tombstone limit p id now)

-- the writes of `track_purge`
unfoldable pub write_purge : Uuid → Store → Store
write_purge id s = record s {
  purge = if any (λ d. d == id) s.purge then s.purge else s.purge ++ id ∷ [];
  documents = update (λ r. r.document == id) (λ r. record r { state = purge_pending }) s.documents;
}

-- the transaction of `track_purge`
unfoldable pub set_purge : ℕ → Principal → Uuid → Micros → Store → Result (Uuid × Store)
unfolding write_purge
set_purge limit operator id now s = do
  check_principal operator now s
  unless (operator.permissions publication_manage)
  row ← found (document_of id s)
  unless (row.tenant == operator.scope.tenant && not (is_active row.state))
  s' ← audit limit operator "PURGE_PENDING" (some id) true now (write_purge id s)
  pure (id, s')

-- `track_purge`
unfoldable pub track_purge : ℕ → Principal → Uuid → Micros → Store → Result Uuid × Store
track_purge limit operator id now =
    audited limit operator "PURGE_PENDING" (some id) now (set_purge limit operator id now)

abbrev pub disabled_row : PrincipalRow → PrincipalRow
disabled_row r = record r { disabled = true; epoch = r.epoch + 1 }

-- the UPDATE of `disable_principal`
unfoldable pub write_disabled : Uuid → Store → Store
write_disabled owner s = record s {
  principals = update (λ r. r.owner == owner && not r.disabled) disabled_row s.principals;
}

-- the transaction of `disable_principal`
unfoldable pub set_disabled : ℕ → Principal → Uuid → Micros → Store → Result (Unit {0} × Store)
unfolding write_disabled
set_disabled limit operator owner now s = do
  check_principal operator now s
  unless (operator.permissions tenant_admin)
  target ← found (principal_of owner s)
  unless (target.tenant == operator.scope.tenant)
  s' ← audit limit operator "PRINCIPAL_DISABLE" (some owner) true now (write_disabled owner s)
  pure (tt, s')

-- `disable_principal`
unfoldable pub disable_principal : ℕ → Principal → Uuid → Micros → Store → Result (Unit {0}) × Store
disable_principal limit operator owner now =
    audited limit operator "PRINCIPAL_DISABLE" (some owner) now
      (set_disabled limit operator owner now)
