-- ===== src/Security/Isolation.antt =====
-- Who is answered by `authorize` of security/authority.py: the tenant of a document, its owner, an
-- administrator or a grantee, and no principal that is disabled.
use estudio_polymind_llm_orc.Prelude.{
  ℕ, ◌≡◌, ◌≢◌, refl, sym, subst, ◌∙◌, String, Bool, true, false, not, ◌&&◌, Bool-cases, inl, inr,
  Option, none, is_some, any, find-eq-some, ◌⊎◌, some, List, [], ◌∷◌, ◌==◌, ==→≡, find, update,
  arith, &&-eq-true, ltb,
}
use estudio_polymind_llm_orc.Jobs.Models.{Uuid, Micros}
use estudio_polymind_llm_orc.Security.Models.{
  Action, document_read, document_analyze, document_share, document_delete, job_read, job_cancel,
  session_read, session_write, publication_manage, usage_read, Principal, authentication_required,
  access_denied, tenant_admin, Resource, document,
}
use estudio_polymind_llm_orc.Security.Tables.{
  Store, PrincipalRow, DocumentRow, GrantRow, Result, ok, err, ◌>>◌, principal_of, document_of,
  is_active,
}
use estudio_polymind_llm_orc.Security.Checks.{
  audit, is_current, check_principal, on_document, by_grant, has_grant, may_act, check_document,
}
use estudio_polymind_llm_orc.Security.Authority.{
  allowed, decide, authorize, is_ok, value, resource_id,
}
use estudio_polymind_llm_orc.Security.Removal.{
  disable_principal, set_disabled, write_disabled, disabled_row,
}
use estudio_polymind_llm_orc.Security.Revocation.{bind_inv, found_inv, unless_inv, audited_inv}

-- an answer that is ok is that of the verdict
decide-ok :
    {A : Type 0} (limit : ℕ) (p : Principal) (action : String) (resource : Option Uuid)
    (now : Micros) (verdict : Result A) (s : Store) (a : A)
    → (decide limit p action resource now verdict s).0 ≡ ok a
    → verdict ≡ ok a
unfolding decide
decide-ok {A = A} limit p action resource now verdict s a h =
    answered (audit limit p action resource (is_ok verdict) now s) verdict h
  where
    answered :
        (x : Result Store) (v : Result A)
        → (elim x as (λ _. Result A × Store) [
          | err e ↦ (err e, s)
          | ok s' ↦ (elim v as (λ _. Result A × Store) [
            | ok b ↦ (ok b, s')
            | err e ↦ (err access_denied, s')
          ])
        ]).0
          ≡ ok a
        → v ≡ ok a
    answered (err e) v k = cc
    answered (ok s') (ok b) k = k
    answered (ok s') (err e) k = cc

-- the principal is there, and disabled
abbrev IsDisabled : Uuid → Store → Type 0
IsDisabled owner s = (r : PrincipalRow) × (principal_of owner s ≡ some r) × (r.disabled ≡ true)

disabled_rows :
    (owner : Uuid) (rs : List PrincipalRow) {r : PrincipalRow}
    → find (λ x. x.owner == owner) rs ≡ some r
    → (y : PrincipalRow) × (find
          (λ x. x.owner == owner)
          (update (λ x. x.owner == owner && not x.disabled) disabled_row rs)
        ≡ some y)
      × (y.disabled ≡ true)
disabled_rows owner [] h = cc
disabled_rows owner (x ∷ rs) {r} h = elim (Bool-cases (x.owner == owner)) [
  | inr e ↦ let (y, f, d) = disabled_rows owner rs {r = r} (cc) in (y, rw (e, e) f, d)
  | inl e ↦ elim (Bool-cases x.disabled) [
    | inl d ↦ (x, rw (e, d, e) refl, d)
    | inr d ↦ (disabled_row x, rw (e, d, e) refl, refl)
  ]
]

is_current-live : (p : Principal) (r : PrincipalRow) → is_current p r ≡ true → r.disabled ≡ false
unfolding is_current
is_current-live p r h = ground arith

check_principal-IsDisabled :
    (p : Principal) (now : Micros) (s : Store) (r : PrincipalRow)
    → IsDisabled p.scope.owner s
    → check_principal p now s ≢ ok r
unfolding check_principal
check_principal-IsDisabled p now s r (x, f, d) h =
    unless_inv (ltb now p.expires) authentication_required _ h λ _ h1.
      found_inv (principal_of p.scope.owner s) _ h1 λ y e h2.
        unless_inv (is_current p y) access_denied (ok y) h2 λ c _.
          let live = is_current-live p y c in
          let same : x ≡ y = cc in absurd (let no : true ≡ false = cc in cc)

audit-principals :
    (limit : ℕ) (p : Principal) (action : String) (resource : Option Uuid) (allowed : Bool)
    (now : Micros) (s : Store) {s' : Store}
    → audit limit p action resource allowed now s ≡ ok s'
    → s'.principals ≡ s.principals
unfolding audit
audit-principals limit p action resource allowed now s e = ground arith

write_disabled-IsDisabled :
    (owner : Uuid) (s t : Store) {r : PrincipalRow}
    → principal_of owner s ≡ some r
    → t.principals ≡ (write_disabled owner s).principals
    → IsDisabled owner t
unfolding write_disabled principal_of
write_disabled-IsDisabled owner s t {r} f same =
    let (y, e, d) = disabled_rows owner s.principals {r = r} f in (y, rw same e, d)

set_disabled-IsDisabled :
    (limit : ℕ) (operator : Principal) (owner : Uuid) (now : Micros) (s s' : Store)
    → set_disabled limit operator owner now s ≡ ok (tt, s')
    → IsDisabled owner s'
unfolding set_disabled
set_disabled-IsDisabled limit operator owner now s s' h =
    bind_inv (check_principal operator now s) _ h λ _ _ h1.
      unless_inv (operator.permissions tenant_admin) access_denied _ h1 λ _ h2.
        found_inv (principal_of owner s) _ h2 λ r e h3.
          unless_inv (r.tenant == operator.scope.tenant) access_denied _ h3 λ _ h4.
            bind_inv
              (audit limit operator "PRINCIPAL_DISABLE" (some owner) true now
                (write_disabled owner s))
              _ h4
              λ t a h5.
                let same : t ≡ s' = cc in
                write_disabled-IsDisabled owner s s' e (
                  subst (λ (x : Store). x.principals ≡ (write_disabled owner s).principals) same
                    (audit-principals limit operator "PRINCIPAL_DISABLE" (some owner) true now
                      (write_disabled owner s) a))

-- Once a principal is disabled, no call of `authorize` of that principal is answered, for any action and
-- resource and at any instant, on the database that is left.
pub disable_principal-authorize :
    (limit : ℕ) (operator : Principal) (owner : Uuid) (now : Micros) (s s' : Store)
    → disable_principal limit operator owner now s ≡ (ok tt, s')
    → (p : Principal) → p.scope.owner ≡ owner
    → (audit_limit : ℕ) (action : Action) (r : Resource) (later : Micros)
    → (authorize audit_limit p action r later s').0 ≢ ok tt
unfolding disable_principal authorize
disable_principal-authorize limit operator owner now s s' h p o audit_limit action r later k =
    let gone = set_disabled-IsDisabled limit operator owner now s s' (
      audited_inv limit operator "PRINCIPAL_DISABLE" (some owner) now
        (set_disabled limit operator owner now) s h) in
    let v =
      decide-ok audit_limit p (value action) (resource_id r) later
        (check_principal p later s' >> allowed p action r later s') s' tt k in
    bind_inv (check_principal p later s') _ v λ row e _.
      check_principal-IsDisabled p later s' row (subst (λ x. IsDisabled x s') (sym o) gone) e

allowed-document :
    (p : Principal) (action : Action) (id : Uuid) (now : Micros) (s : Store)
    → on_document action ≡ true
    → allowed p action (document id) now s ≡ (check_document p action id now s >> ok tt)
unfolding allowed
allowed-document p document_read id now s h = refl
allowed-document p document_analyze id now s h = refl
allowed-document p document_share id now s h = refl
allowed-document p document_delete id now s h = refl
allowed-document p job_read id now s h = cc
allowed-document p job_cancel id now s h = cc
allowed-document p session_read id now s h = cc
allowed-document p session_write id now s h = cc
allowed-document p publication_manage id now s h = cc
allowed-document p usage_read id now s h = cc
allowed-document p tenant_admin id now s h = cc

-- a row of the grants of a document to a grantee that is not revoked
abbrev pub Granted : Uuid → Uuid → List GrantRow → Type 0
Granted id grantee [] = ⊥
Granted id grantee (g ∷ gs) =
    ((g.document ≡ id) × (g.grantee ≡ grantee) × (g.revoked ≡ none)) ⊎ Granted id grantee gs

any-Granted :
    (id grantee : Uuid) (gs : List GrantRow)
    → any (λ g. g.document == id && g.grantee == grantee && not (is_some g.revoked)) gs ≡ true
    → Granted id grantee gs
any-Granted id grantee [] h = cc
any-Granted id grantee (g ∷ gs) h =
    elim (Bool-cases (g.document == id && g.grantee == grantee && not (is_some g.revoked))) [
      | inl e ↦
          let (both, r) = &&-eq-true (g.document == id && g.grantee == grantee) _ e in
          let (d, o) = &&-eq-true (g.document == id) _ both in
          inl (==→≡ g.document id d, ==→≡ g.grantee grantee o, is_none g.revoked r)
      | inr e ↦ inr (any-Granted id grantee gs (ground (arith, h, e)))
    ]
  where
    is_none : (x : Option Micros) → not (is_some x) ≡ true → x ≡ none
    is_none none k = refl
    is_none (some a) k = cc

-- who may act on a document: its owner, an administrator, and to read or analyze it a grantee
abbrev pub May : Principal → Action → Uuid → DocumentRow → Store → Type 0
May p action id row s =
    (row.owner ≡ p.scope.owner)
    ⊎ ((p.permissions tenant_admin ≡ true)
        ⊎ (((action ≡ document_read) ⊎ (action ≡ document_analyze))
            × Granted id p.scope.owner s.grants))

by_grant-actions : (a : Action) → by_grant a ≡ true → (a ≡ document_read) ⊎ (a ≡ document_analyze)
by_grant-actions document_read h = inl refl
by_grant-actions document_analyze h = inr refl
by_grant-actions document_share h = cc
by_grant-actions document_delete h = cc
by_grant-actions job_read h = cc
by_grant-actions job_cancel h = cc
by_grant-actions session_read h = cc
by_grant-actions session_write h = cc
by_grant-actions publication_manage h = cc
by_grant-actions usage_read h = cc
by_grant-actions tenant_admin h = cc

may_act-May :
    (p : Principal) (action : Action) (row : DocumentRow) (s : Store)
    → may_act p action row s ≡ true
    → May p action row.document row s
unfolding may_act has_grant
may_act-May p action row s h = elim (Bool-cases (row.owner == p.scope.owner)) [
  | inl o ↦ inl (==→≡ row.owner p.scope.owner o)
  | inr o ↦ elim (Bool-cases (p.permissions tenant_admin)) [
    | inl a ↦ inr (inl a)
    | inr a ↦
        let (g, rest) = &&-eq-true (by_grant action) _ (ground (arith, h, o, a)) in
        inr (inr (by_grant-actions action g, any-Granted row.document p.scope.owner s.grants rest))
  ]
]

document_of-id :
    (id : Uuid) (s : Store) (row : DocumentRow) → document_of id s ≡ some row → row.document ≡ id
unfolding document_of
document_of-id id s row e =
    ==→≡ row.document id (find-eq-some (λ d. d.document == id) s.documents e)

-- whom the row of a document admits
abbrev pub Admits : Principal → Action → Uuid → Store → DocumentRow → Type 0
Admits p action id s row =
    (document_of id s ≡ some row)
    × (row.tenant ≡ p.scope.tenant)
    × (is_active row.state ≡ true)
    × May p action id row s

check_document-Admits :
    (p : Principal) (action : Action) (id : Uuid) (now : Micros) (s : Store) (row : DocumentRow)
    → check_document p action id now s ≡ ok row
    → Admits p action id s row
unfolding check_document
check_document-Admits p action id now s row h = bind_inv (check_principal p now s) _ h λ _ _ h1.
    found_inv (document_of id s) _ h1 λ r e h2.
      unless_inv (r.tenant == p.scope.tenant && is_active r.state) access_denied _ h2 λ c h3.
        unless_inv (on_document action) access_denied _ h3 λ _ h4.
          unless_inv (may_act p action r s) access_denied (ok r) h4 λ m h5.
            let (t, live) = &&-eq-true (r.tenant == p.scope.tenant) (is_active r.state) c in
            let same : r ≡ row = cc in
            let may =
              subst (λ k. May p action k r s) (document_of-id id s r e)
                (may_act-May p action r s m) in
            subst (Admits p action id s) same (e, ==→≡ r.tenant p.scope.tenant t, live, may)

-- Nobody reads across tenants: when `authorize` answers for an action on a document, the document is
-- there and active, in the tenant of the principal, who is its owner, has the permission of an
-- administrator, or has a grant of it that is not revoked and asks to read or to analyze it.
pub authorize-document :
    (limit : ℕ) (p : Principal) (action : Action) (id : Uuid) (now : Micros) (s : Store)
    → on_document action ≡ true
    → (authorize limit p action (document id) now s).0 ≡ ok tt
    → (row : DocumentRow) × Admits p action id s row
unfolding authorize
authorize-document limit p action id now s d h =
    let v =
      decide-ok limit p (value action) (resource_id (document id)) now
        (check_principal p now s >> allowed p action (document id) now s) s tt h in
    bind_inv (check_principal p now s) _ v λ _ _ w.
      bind_inv (check_document p action id now s) (λ _. ok tt)
        (sym (allowed-document p action id now s d) ∙ w)
        λ row e _. (row, check_document-Admits p action id now s row e)
