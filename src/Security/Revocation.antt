-- ===== src/Security/Revocation.antt =====
-- What a tombstone and a disabled principal of security/authority.py leave possible.
use estudio_polymind_llm_orc.Prelude.{
  ℕ, ◌≡◌, refl, sym, subst, ◌∙◌, String, Bool, true, false, not, ◌&&◌, Option, none, some, List, [],
  ◌∷◌, ◌==◌, ==→≡, any, find-update, Bool-cases, &&-eq-true, inl, inr, arith, if◌then◌else◌,
}
use estudio_polymind_llm_orc.Jobs.Models.{Uuid, Micros}
use estudio_polymind_llm_orc.Security.Models.{
  Action, Principal, Seen, AuthorizationSnapshot, SecurityError,
}
use estudio_polymind_llm_orc.Security.Tables.{
  Store, DocumentRow, DocumentState, Result, ok, err, ◌>>=◌, ◌>>◌, unless_else, found, document_of,
  is_active, tombstoned,
}
use estudio_polymind_llm_orc.Security.Checks.{
  audit, audited, after_denial, check_principal, check_document,
}
use estudio_polymind_llm_orc.Security.Authority.{revalidate, still_seen, allowed}
use estudio_polymind_llm_orc.Security.Removal.{
  tombstone, set_tombstone, write_tombstone, bury_document, tombstoned_row,
}

module _ {ℓ} {A B : Type 0} {C : Type ℓ} where
  pub bind_inv :
      (m : Result A) (f : A → Result B) {b : B}
      → (m >>= f) ≡ ok b
      → ((a : A) → m ≡ ok a → f a ≡ ok b → C)
      → C
  bind_inv (ok a) f h k = k a refl h
  bind_inv (err e) f h k = cc

  pub found_inv :
      (o : Option A) (f : A → Result B) {b : B}
      → (found o >>= f) ≡ ok b
      → ((a : A) → o ≡ some a → f a ≡ ok b → C)
      → C
  found_inv none f h k = cc
  found_inv (some a) f h k = k a refl h

module _ {ℓ} {B : Type 0} {C : Type ℓ} where
  pub unless_inv :
      (c : Bool) (e : SecurityError) (m : Result B) {b : B}
      → (unless_else c e >> m) ≡ ok b
      → (c ≡ true → m ≡ ok b → C)
      → C
  unless_inv true e m h k = k refl h
  unless_inv false e m h k = cc

  pub if_inv :
      (c : Bool) (m n : Result B) {b : B}
      → (if c then m else n) ≡ ok b
      → (c ≡ true → m ≡ ok b → C)
      → (c ≡ false → n ≡ ok b → C)
      → C
  if_inv true m n h j k = j refl h
  if_inv false m n h j k = k refl h

module _ {A : Type 0} where
  after_denial-err :
      (e : SecurityError) (x : Result Store) (s : Store) {a : A} {s' : Store} {C : Type 0}
      → after_denial e x s ≡ (ok a, s')
      → C
  after_denial-err e (ok s1) s h = cc
  after_denial-err e (err f) s h = cc

  -- A mutation that is answered has run its body.
  pub audited_inv :
      (limit : ℕ) (p : Principal) (action : String) (resource : Option Uuid) (now : Micros)
      (body : Store → Result (A × Store)) (s : Store) {a : A} {s' : Store}
      → audited limit p action resource now body s ≡ (ok a, s')
      → body s ≡ ok (a, s')
  unfolding audited
  audited_inv limit p action resource now body s {a} {s'} e = settle (body s) e
    where
      settle :
          (x : Result (A × Store))
          → (elim x as (λ _. Result A × Store) [
            | ok (b, s1) ↦ (ok b, s1)
            | err f ↦ after_denial f (audit limit p action resource false now s) s
          ])
            ≡ (ok a, s')
          → x ≡ ok (a, s')
      settle (ok (b, s1)) h = ground arith
      settle (err f) h = after_denial-err f (audit limit p action resource false now s) s h

-- What `audit` leaves alone.
audit_inv :
    (limit : ℕ) (p : Principal) (action : String) (resource : Option Uuid) (allowed : Bool)
    (now : Micros) (s : Store) {s' : Store}
    → audit limit p action resource allowed now s ≡ ok s'
    → s'.documents ≡ s.documents
unfolding audit
audit_inv limit p action resource allowed now s e = ground arith

-- The document is there and is not active.
abbrev IsGone : Uuid → Store → Type 0
IsGone id s = (r : DocumentRow) × (document_of id s ≡ some r) × (is_active r.state ≡ false)

same_documents-IsGone :
    (id : Uuid) (s t : Store) → t.documents ≡ s.documents → IsGone id s → IsGone id t
unfolding document_of
same_documents-IsGone id s t e (r, f, g) = (r, (rw e f), g)

bury_document-IsGone :
    (id : Uuid) (now : Micros) (s : Store) {r : DocumentRow}
    → document_of id s ≡ some r
    → IsGone id (bury_document id now s)
unfolding document_of bury_document
bury_document-IsGone id now s {r} f = (
  tombstoned_row r,
  find-update (λ x. x.document == id) (λ x. x.document == id) tombstoned_row s.documents (λ z. refl)
      (λ z m. m) f,
  refl,
)

document_of-same :
    (id : Uuid) (s t : Store) → t.documents ≡ s.documents → document_of id t ≡ document_of id s
unfolding document_of
document_of-same id s t e = rw e refl

not-true : (b : Bool) → not b ≡ true → b ≡ false
not-true b h = ground arith

returned :
    {A : Type 0} {a b : A} {s t : Store}
    → ◌≡◌ {A = Result (A × Store)} (ok (a, s)) (ok (b, t))
    → t.documents ≡ s.documents
returned h = ground arith

write_tombstone-IsGone :
    (limit : ℕ) (p : Principal) (id : Uuid) (now : Micros) (s : Store) {r : DocumentRow}
    {st : DocumentState} {s' : Store}
    → document_of id s ≡ some r
    → write_tombstone limit p id now s ≡ ok (st, s')
    → IsGone id s'
unfolding write_tombstone
write_tombstone-IsGone limit p id now s {r} {st} {s'} f e =
    bind_inv (audit limit p "DELETE_REQUESTED" (some id) true now s) _ e λ asked a1 e5.
      bind_inv (audit limit p "TOMBSTONED" (some id) true now (bury_document id now asked))
        (λ t. ok (tombstoned, t)) e5
        λ t a2 e6. same_documents-IsGone id t s' (returned e6) (
          same_documents-IsGone id (bury_document id now asked) t
            (audit_inv limit p "TOMBSTONED" (some id) true now _ a2)
            (bury_document-IsGone id now asked (
              document_of-same id s asked
                (audit_inv limit p "DELETE_REQUESTED" (some id) true now s a1)
              ∙ f)))

set_tombstone-IsGone :
    (limit : ℕ) (p : Principal) (id : Uuid) (now : Micros) (s : Store) {st : DocumentState}
    {s' : Store}
    → set_tombstone limit p id now s ≡ ok (st, s')
    → IsGone id s'
unfolding set_tombstone
set_tombstone-IsGone limit p id now s {st} {s'} e =
    bind_inv (check_principal p now s) _ e λ row _ e1. found_inv (document_of id s) _ e1 λ r f e2.
      unless_inv _ _ _ e2 λ _ e3.
        if_inv (not (is_active r.state)) (ok (r.state, s)) (write_tombstone limit p id now s) e3
          (λ gone e4. same_documents-IsGone id s s' (returned e4) (r, f, not-true _ gone))
          (λ _ e4. write_tombstone-IsGone limit p id now s f e4)

-- No check of a document that is not active returns.
IsGone-check_document :
    (p : Principal) (a : Action) (id : Uuid) (now : Micros) (s : Store) {r : DocumentRow}
    → IsGone id s
    → ¬ (check_document p a id now s ≡ ok r)
unfolding check_document
IsGone-check_document p a id now s (g, f, dead) e = bind_inv (check_principal p now s) _ e λ _ _ e1.
    found_inv (document_of id s) _ e1 λ x fx e2.
      unless_inv (x.tenant == p.scope.tenant && is_active x.state) _ _ e2 λ c _.
        let same : x ≡ g = cc in
        let live : is_active g.state ≡ true =
          subst (λ (w : DocumentRow). is_active w.state ≡ true) same
            (&&-eq-true (x.tenant == p.scope.tenant) (is_active x.state) c).1 in
        true_false _ live dead
  where
    true_false : (b : Bool) → b ≡ true → b ≡ false → ⊥
    true_false b h k = ground arith

IsGone-still_seen :
    (x : AuthorizationSnapshot) (ds : List Seen) (id : Uuid) (now : Micros) (s : Store)
    → IsGone id s
    → any (λ d. d.document == id) ds ≡ true
    → ¬ (still_seen x ds now s ≡ ok tt)
unfolding still_seen
IsGone-still_seen x [] id now s g m e = cc
IsGone-still_seen x (d ∷ ds) id now s g m e =
    bind_inv (check_document x.principal x.action d.document now s) _ e λ r c e1.
      unless_inv _ _ _ e1 λ _ e2. elim (Bool-cases (d.document == id)) [
        | inl here ↦
            IsGone-check_document x.principal x.action d.document now s
              (subst (λ k. IsGone k s) (sym (==→≡ d.document id here)) g) c
        | inr there ↦ IsGone-still_seen x ds id now s g (ground arith) e2
      ]

-- Once `tombstone` has answered for a document, no snapshot that names the document passes
-- `revalidate` on the database that it leaves, at any instant and for any principal.
pub tombstone-revalidate :
    (limit : ℕ) (p : Principal) (id : Uuid) (now : Micros) (s : Store) {st : DocumentState}
    {s' : Store} (x : AuthorizationSnapshot) (later : Micros)
    → tombstone limit p id now s ≡ (ok st, s')
    → any (λ d. d.document == id) x.documents ≡ true
    → ¬ (revalidate x later s' ≡ ok tt)
unfolding tombstone revalidate
tombstone-revalidate limit p id now s {st} {s'} x later e named r =
    let g =
      set_tombstone-IsGone limit p id now s
        (audited_inv limit p "TOMBSTONED" (some id) now (set_tombstone limit p id now) s e) in
    bind_inv (check_principal x.principal later s') _ r
      λ row _ r1. unless_inv _ _ _ r1 λ _ r2. IsGone-still_seen x x.documents id later s' g named r2
