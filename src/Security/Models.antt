-- ===== src/Security/Models.antt =====
-- security/models.py: actions, principals and snapshots. Values of another type than the code asks
-- for cannot be written here, so its `type(…) is` tests are left out.
use estudio_polymind_llm_orc.Prelude.{
  ℕ, String, Bool, true, false, not, ◌&&◌, List, [], ◌∷◌, str_eq, all,
}
use estudio_polymind_llm_orc.Jobs.Models.{Uuid, Scope}

-- the categories of `SecurityError` that the authority raises
pub data SecurityError : Type 0 where
  access_denied authentication_required security_unavailable : SecurityError

pub data Action : Type 0 where
  document_read document_analyze document_share document_delete job_read job_cancel session_read
        session_write publication_manage usage_read tenant_admin :
      Action

abbrev pub all_actions : List Action
all_actions =
    document_read ∷ document_analyze ∷ document_share ∷ document_delete ∷ job_read ∷ job_cancel
    ∷ session_read ∷ session_write ∷ publication_manage ∷ usage_read ∷ tenant_admin ∷ []

pub data PrincipalKind : Type 0 where
  user service : PrincipalKind

abbrev pub same_kind : PrincipalKind → PrincipalKind → Bool
same_kind user user = true
same_kind service service = true
same_kind _ _ = false

-- `_identity`: the JSON list of the three strings
pub record Identity : Type 0 where
  pub issuer : String
  pub tenant_identity : String
  pub subject : String

abbrev pub same_identity : Identity → Identity → Bool
same_identity a b =
    str_eq a.issuer b.issuer
    && str_eq a.tenant_identity b.tenant_identity
    && str_eq a.subject b.subject

-- a frozenset of actions
abbrev pub Permissions : Type 0
Permissions = Action → Bool

abbrev pub same_bool : Bool → Bool → Bool
same_bool true b = b
same_bool false b = not b

-- `_permissions`: the sorted list of the values of the set
abbrev pub same_permissions : Permissions → Permissions → Bool
same_permissions p q = all (λ a. same_bool (p a) (q a)) all_actions

pub record Principal : Type 0 where
  pub identity : Identity
  pub scope : Scope
  pub permissions : Permissions
  pub kind : PrincipalKind
  pub expires : ℕ

-- a document of a snapshot: its id, the scope of its row, and the epoch of the row
pub record Seen : Type 0 where
  pub document : Uuid
  pub scope : Scope
  pub epoch : ℕ

pub record AuthorizationSnapshot : Type 0 where
  pub principal : Principal
  pub principal_epoch : ℕ
  pub documents : List Seen
  pub action : Action

-- what `authorize` is asked about
pub data Resource : Type 0 where
  nothing : Resource
  document : Uuid → Resource
  in_scope : Scope → Resource
