-- ===== src/Scenarios/Access.antt =====
-- A document, its owner and a snapshot.
use estudio_polymind_llm_orc.Prelude.{◌≡◌, ◌≢◌, refl, true, false, some, [], ◌∷◌}
use estudio_polymind_llm_orc.Security.Models.{
  Principal, document_read, document_analyze, user, document, AuthorizationSnapshot,
}
use estudio_polymind_llm_orc.Security.Tables.{
  Store, PrincipalRow, DocumentRow, active, tombstoned, ok, principal_of, document_of,
}
use estudio_polymind_llm_orc.Security.Checks.{
  check_document, may_act, has_grant, audit, audited, audit_row, check_principal, is_current,
}
use estudio_polymind_llm_orc.Security.Authority.{allowed, decide, authorize, value, revalidate}
use estudio_polymind_llm_orc.Security.Removal.{
  disable_principal, set_disabled, write_disabled, disabled_row, tombstone, set_tombstone,
  write_tombstone, bury_document, tombstoned_row,
}
use estudio_polymind_llm_orc.Security.Audit.{Recorded, authorize-Recorded}
use estudio_polymind_llm_orc.Security.Revocation.{tombstone-revalidate}
use estudio_polymind_llm_orc.Security.Isolation.{
  Admits, disable_principal-authorize, authorize-document,
}

abbrev carol : Principal
carol = record {
  identity = record { issuer = "https://issuer"; tenant_identity = "t"; subject = "carol" };
  scope = record { tenant = 1; owner = 4 };
  permissions = λ _. false;
  kind = user;
  expires = 9000;
}

abbrev carol_row : PrincipalRow
carol_row = record {
  owner = 4;
  tenant = 1;
  identity = carol.identity;
  permissions = carol.permissions;
  kind = user;
  epoch = 0;
  disabled = false;
}

abbrev a_document : DocumentRow
a_document = record { document = 70; tenant = 1; owner = 4; epoch = 3; state = active }

abbrev before_db : Store
before_db = record {
  principals = carol_row ∷ [];
  documents = a_document ∷ [];
  grants = [];
  audit = [];
  purge = [];
}

abbrev after_db : Store
after_db = record {
  principals = carol_row ∷ [];
  documents = tombstoned_row a_document ∷ [];
  grants = [];
  audit =
      audit_row carol "DELETE_REQUESTED" (some 70) true 100
      ∷ audit_row carol "TOMBSTONED" (some 70) true 100
      ∷ [];
  purge = [];
}

abbrev a_snapshot : AuthorizationSnapshot
a_snapshot = record {
  principal = carol;
  principal_epoch = 0;
  documents = record { document = 70; scope = carol.scope; epoch = 3 } ∷ [];
  action = document_analyze;
}

authorize-Recorded_example :
    Recorded carol "DOCUMENT_READ"
      (some 70)
      100
      before_db
      (authorize 10 carol document_read (document 70) 100 before_db)
unfolding value
authorize-Recorded_example = authorize-Recorded 10 carol document_read (document 70) 100 before_db

tombstone-revalidate_example : ¬ (revalidate a_snapshot 200 after_db ≡ ok tt)
unfolding tombstone audited set_tombstone write_tombstone bury_document audit check_principal
    is_current principal_of document_of
tombstone-revalidate_example =
    tombstone-revalidate 10 carol 70 100 before_db {st = tombstoned} {s' = after_db} a_snapshot 200
      refl refl

authorize-document_example : (row : DocumentRow) × Admits carol document_read 70 before_db row
unfolding audit check_principal is_current principal_of document_of authorize allowed decide
    check_document may_act has_grant value
authorize-document_example = authorize-document 10 carol document_read 70 100 before_db refl refl

-- an administrator of the tenant
abbrev dan : Principal
dan = record {
  identity = record { issuer = "https://issuer"; tenant_identity = "t"; subject = "dan" };
  scope = record { tenant = 1; owner = 5 };
  permissions = λ _. true;
  kind = user;
  expires = 9000;
}

abbrev dan_row : PrincipalRow
dan_row = record {
  owner = 5;
  tenant = 1;
  identity = dan.identity;
  permissions = dan.permissions;
  kind = user;
  epoch = 0;
  disabled = false;
}

abbrev staffed_db : Store
staffed_db = record before_db { principals = carol_row ∷ dan_row ∷ [] }

abbrev disabled_db : Store
disabled_db = record before_db {
  principals = disabled_row carol_row ∷ dan_row ∷ [];
  audit = audit_row dan "PRINCIPAL_DISABLE" (some 4) true 100 ∷ [];
}

disable_principal-authorize_example :
    (authorize 10 carol document_read (document 70) 200 disabled_db).0 ≢ ok tt
unfolding audit check_principal is_current principal_of audited disable_principal set_disabled
    write_disabled
disable_principal-authorize_example =
    disable_principal-authorize 10 dan 4 100 staffed_db disabled_db refl carol refl 10 document_read
      (document 70) 200
