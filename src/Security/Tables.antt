-- ===== src/Security/Tables.antt =====
-- The tables of security/authority.py (`SCHEMA`), as lists of rows in rowid order, and the result
-- of a block. The random `event_id` of an audit row is left out.
use estudio_polymind_llm_orc.Prelude.{
  ℕ, String, Bool, true, false, ◌&&◌, Option, none, some, List, ◌==◌, find,
}
use estudio_polymind_llm_orc.Jobs.Models.{Uuid, Micros}
use estudio_polymind_llm_orc.Security.Models.{
  Identity, Permissions, PrincipalKind, SecurityError, access_denied,
}

pub data DocumentState : Type 0 where
  active tombstoned purge_pending : DocumentState

abbrev pub is_active : DocumentState → Bool
is_active active = true
is_active _ = false

-- a row of `principals`
pub record PrincipalRow : Type 0 where
  pub owner : Uuid
  pub tenant : Uuid
  pub identity : Identity
  pub permissions : Permissions
  pub kind : PrincipalKind
  pub epoch : ℕ
  pub disabled : Bool

-- a row of `documents`
pub record DocumentRow : Type 0 where
  pub document : Uuid
  pub tenant : Uuid
  pub owner : Uuid
  pub epoch : ℕ
  pub state : DocumentState

-- a row of `grants`
pub record GrantRow : Type 0 where
  pub grant_id : Uuid
  pub document : Uuid
  pub grantee : Uuid
  pub created : Micros
  pub revoked : Option Micros

-- a row of `audit`
pub record AuditRow : Type 0 where
  pub at : Micros
  pub principal : Option Uuid
  pub tenant : Option Uuid
  pub action : String
  pub resource : Option Uuid
  pub allowed : Bool

-- The database; a row of `purge` holds constants beside its document.
pub record Store : Type 0 where
  pub principals : List PrincipalRow
  pub documents : List DocumentRow
  pub grants : List GrantRow
  pub audit : List AuditRow
  pub purge : List Uuid

pub data Result {ℓ} (A : Type ℓ) : Type ℓ where
  ok : A → Result A
  err : SecurityError → Result A

infixl 5 ◌>>=◌ ◌>>◌
abbrev pub ◌>>=◌ : {A B : Type 0} → Result A → (A → Result B) → Result B
ok a >>= f = f a
err e >>= f = err e

abbrev pub ◌>>◌ : {A B : Type 0} → Result A → Result B → Result B
m >> n = m >>= λ _. n

abbrev pub pure : {A : Type 0} → A → Result A
pure = ok

abbrev pub unless_else : Bool → SecurityError → Result (Unit {0})
unless_else true e = ok tt
unless_else false e = err e

-- `if not …: raise SecurityError()`
abbrev pub unless : Bool → Result (Unit {0})
unless b = unless_else b access_denied

abbrev pub found : {A : Type 0} → Option A → Result A
found (some a) = ok a
found none = err access_denied

-- SELECT * FROM principals WHERE owner=?
unfoldable pub principal_of : Uuid → Store → Option PrincipalRow
principal_of owner s = find (λ r. r.owner == owner) s.principals

-- SELECT * FROM documents WHERE document=?
unfoldable pub document_of : Uuid → Store → Option DocumentRow
document_of id s = find (λ r. r.document == id) s.documents

-- SELECT … FROM grants WHERE document=? AND grantee=?
unfoldable pub grant_of : Uuid → Uuid → Store → Option GrantRow
grant_of id grantee s = find (λ g. g.document == id && g.grantee == grantee) s.grants
