-- ===== src/Security/Sharing.antt =====
-- `share` of security/authority.py.
use estudio_polymind_llm_orc.Prelude.{
  ℕ, ◌+◌, Bool, true, not, ◌&&◌, ◌||◌, Option, none, some, [], ◌∷◌, ◌++◌, ◌==◌, update, is_some,
  if◌then◌else◌,
}
use estudio_polymind_llm_orc.Jobs.Models.{Uuid, Micros}
use estudio_polymind_llm_orc.Security.Models.{Principal, document_share, same_bool}
use estudio_polymind_llm_orc.Security.Tables.{
  Store, DocumentRow, GrantRow, Result, ◌>>=◌, ◌>>◌, pure, unless, found, principal_of, grant_of,
}
use estudio_polymind_llm_orc.Security.Checks.{audit, audited, check_document}

-- the columns that an UPDATE of `documents` moves on
abbrev pub next_epoch : DocumentRow → DocumentRow
next_epoch r = record r { epoch = r.epoch + 1 }

-- INSERT INTO grants … ON CONFLICT(document,grantee) DO UPDATE SET revoked=excluded.revoked
unfoldable pub put_grant : Uuid → Uuid → Uuid → Option Micros → Micros → Store → Store
put_grant id grantee grant_id revoked now s = record s {
  grants = elim (grant_of id grantee s) [
    | some g ↦
        update (λ g. g.document == id && g.grantee == grantee) (λ g. record g { revoked = revoked })
          s.grants
    | none ↦
        s.grants
        ++ record {
          grant_id = grant_id;
          document = id;
          grantee = grantee;
          created = now;
          revoked = revoked;
        }
          ∷ []
  ];
  documents = update (λ r. r.document == id) next_epoch s.documents;
}

-- the grant is already as it is asked for
abbrev pub unchanged : Option GrantRow → Bool → Option Uuid
unchanged none revoke = none
unchanged (some g) revoke = if same_bool (is_some g.revoked) revoke then some g.grant_id else none

-- `row['grant_id'] if row else str(uuid4())`
abbrev pub id_or : Option GrantRow → Uuid → Uuid
id_or none fresh = fresh
id_or (some g) fresh = g.grant_id

-- the writes of `share`
unfoldable pub write_share :
    ℕ → Principal → Uuid → Uuid → Bool → Uuid → Micros → Store → Result (Uuid × Store)
unfolding put_grant
write_share limit p id grantee revoke fresh now s = do
  unless (not revoke || is_some (grant_of id grantee s))
  s' ← audit limit p (if revoke then "SHARE_REVOKE" else "SHARE_CREATE") (some id) true now (
      put_grant id grantee (id_or (grant_of id grantee s) fresh) (if revoke then some now else none)
        now s)
  pure (id_or (grant_of id grantee s) fresh, s')

-- the answer of `share`, when the grant needs no change and when it does
abbrev pub share_or :
    Option Uuid → ℕ → Principal → Uuid → Uuid → Bool → Uuid → Micros → Store → Result (Uuid × Store)
share_or (some g) limit p id grantee revoke fresh now s = pure (g, s)
share_or none limit p id grantee revoke fresh now s =
    write_share limit p id grantee revoke fresh now s

-- the transaction of `share`
unfoldable pub set_share :
    ℕ → Principal → Uuid → Uuid → Bool → Uuid → Micros → Store → Result (Uuid × Store)
set_share limit p id grantee revoke fresh now s = do
  check_document p document_share id now s
  row ← found (principal_of grantee s)
  unless (row.tenant == p.scope.tenant && not row.disabled)
  share_or (unchanged (grant_of id grantee s) revoke) limit p id grantee revoke fresh now s

-- `share`, with the random id of a new grant
unfoldable pub share :
    ℕ → Principal → Uuid → Uuid → Bool → Uuid → Micros → Store → Result Uuid × Store
share limit p id grantee revoke fresh now =
    audited limit p "SHARE_MUTATION" (some id) now (set_share limit p id grantee revoke fresh now)
