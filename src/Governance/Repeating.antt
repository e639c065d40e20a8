-- ===== src/Governance/Repeating.antt =====
-- What a repetition of `reserve` of governance/ledger.py answers.
use estudio_polymind_llm_orc.Prelude.{
  ℕ, ◌≡◌, refl, subst, sym, ap, true, false, ◌&&◌, Option, none, some, [], ◌∷◌, ◌++◌, ==_refl,
  str_eq_refl, find-append, ltb, Option-cases, Bool-cases, inl, inr, arith,
}
use estudio_polymind_llm_orc.Jobs.Models.{Uuid, Micros, Scope, same_scope}
use estudio_polymind_llm_orc.Security.Models.{Principal}
use estudio_polymind_llm_orc.Governance.Models.{
  Price, cost, price_of, Workload, interactive, document_background, same_workload, CallIdentity,
  same_identity, same_call,
}
use estudio_polymind_llm_orc.Governance.Reservations.{
  Reservation, Store, ok, Ledger, Demand, new_row, repeat, in_transaction, priced, valid_request,
  reserve_new, reserve, reservation_of, current_policy,
}
use estudio_polymind_llm_orc.Governance.Bounds.{reserve_new-ok}

same_workload_refl : (w : Workload) → same_workload w w ≡ true
same_workload_refl interactive = refl
same_workload_refl document_background = refl

same_call_refl : (i : CallIdentity) → same_call i i ≡ true
same_call_refl i = rw (==_refl i.job, ==_refl i.step, ==_refl i.attempt) refl

same_scope_refl : (a : Scope) → same_scope a a ≡ true
same_scope_refl a = rw (==_refl a.tenant, ==_refl a.owner) refl

same_identity_refl : (i : CallIdentity) → same_identity i i ≡ true
same_identity_refl i =
    rw
      (
        same_scope_refl i.scope,
        ==_refl i.job,
        ==_refl i.step,
        ==_refl i.attempt,
        str_eq_refl i.profile,
        str_eq_refl i.provider,
        str_eq_refl i.role,
        str_eq_refl i.model,
        str_eq_refl i.capability,
      )
      refl

-- the same demand at another instant
abbrev at_instant : Micros → Demand → Demand
at_instant now d = record d { now = now }

module _ (l : Ledger) where
  -- the row that was inserted is found, and its repetition is no conflict
  repeat-new_row :
      (scope : Scope) (i : CallIdentity) (ticket : Uuid) (d : Demand) (now : Micros) (s : Store)
      → repeat l (new_row l scope i ticket d) i (at_instant now d) s ≡ (ok ticket, s)
  unfolding repeat new_row
  repeat-new_row scope i ticket d now s =
      rw (==_refl d.input, ==_refl d.output, same_workload_refl d.workload, same_identity_refl i)
        refl

  repeat-ok :
      (r : Reservation) (i : CallIdentity) (d : Demand) (now : Micros) (s : Store) {t : Uuid}
      {s' : Store}
      → repeat l r i d s ≡ (ok t, s')
      → (s ≡ s') × (repeat l r i (at_instant now d) s ≡ (ok t, s'))
  unfolding repeat
  repeat-ok r i d now s e = (ground arith, e)

  reservation_of-new_row :
      (scope : Scope) (i : CallIdentity) (ticket : Uuid) (d : Demand) (s s' : Store)
      → reservation_of l scope i s ≡ none
      → s'.reservations ≡ s.reservations ++ new_row l scope i ticket d ∷ []
      → reservation_of l scope i s' ≡ some (new_row l scope i ticket d)
  unfolding reservation_of new_row
  reservation_of-new_row scope i ticket d s s' n e = rw e (
      find-append (λ r. same_scope r.scope scope && same_call r.identity i) s.reservations
        (new_row l scope i ticket d) n (rw (same_scope_refl scope, same_call_refl i) refl))

  in_transaction-again :
      (scope : Scope) (i : CallIdentity) (ticket ticket' : Uuid) (d : Demand) (now : Micros)
      (s : Store) {t : Uuid} {s' : Store}
      → in_transaction l (reservation_of l scope i s) scope i ticket d s ≡ (ok t, s')
      → (in_transaction l (reservation_of l scope i s') scope i ticket' (at_instant now d) s'
          ≡ (ok t, s'))
        × (s'.configuration ≡ s.configuration)
  in_transaction-again scope i ticket ticket' d now s {t} {s'} e =
      elim (Option-cases (reservation_of l scope i s)) [
        | inl n ↦
            let granted : reserve_new l scope i ticket d s ≡ (ok t, s') =
              subst (λ o. in_transaction l o scope i ticket d s ≡ (ok t, s')) n e in
            let (_, rows, same, kept) = reserve_new-ok l scope i ticket d s granted in
            (
              rw (reservation_of-new_row scope i ticket d s s' n rows, same)
                  (repeat-new_row scope i ticket d now s'),
              kept,
            )
        | inr (r, f) ↦
            let again : repeat l r i d s ≡ (ok t, s') =
              subst (λ o. in_transaction l o scope i ticket d s ≡ (ok t, s')) f e in
            let (same, once) = repeat-ok r i d now s again in
            (
              subst
                  (λ x.
                    in_transaction l (reservation_of l scope i x) scope i ticket' (at_instant now d)
                      x
                    ≡ (ok t, s'))
                  same (rw f once),
              ap (λ x. x.configuration) (sym same),
            )
      ]

  valid_request-later :
      (p : Principal) (i : CallIdentity) (input output : ℕ) (now later : Micros)
      → valid_request l p i input output now ≡ true
      → ltb later p.expires ≡ true
      → valid_request l p i input output later ≡ true
  unfolding valid_request
  valid_request-later p i input output now later v h = ground arith

  current_policy-kept :
      (s s' : Store) → s'.configuration ≡ s.configuration → current_policy l s' ≡ current_policy l s
  unfolding current_policy
  current_policy-kept s s' e = rw e refl

  priced-again :
      (o : Option Price) (p : Principal) (i : CallIdentity) (input output : ℕ) (w : Workload)
      (ticket ticket' : Uuid) (now later : Micros) (s : Store) {t : Uuid} {s' : Store}
      → priced l o p i input output w ticket now s ≡ (ok t, s')
      → ltb (l.calendar.date later) l.catalog.effective_date ≡ false
      → priced l o p i input output w ticket' later s' ≡ (ok t, s')
  priced-again none p i input output w ticket ticket' now later s e h = cc
  priced-again (some price) p i input output w ticket ticket' now later s {t} {s'} e h =
      let demand : Demand = record {
        input = input;
        output = output;
        cost = cost price input output;
        workload = w;
        now = now;
      } in
      let short : ltb 2048 (l.calendar.encoded_length i) ≡ false = ground arith in
      let granted : in_transaction l (reservation_of l p.scope i s) p.scope i ticket demand s
          ≡ (ok t, s') =
        ground arith in
      let current : current_policy l s ≡ true = ground arith in
      let (again, kept) = in_transaction-again p.scope i ticket ticket' demand later s granted in
      rw (h, short, current_policy-kept s s' kept, current) again

-- The repetition of a reservation that was granted, on the database that the first call left and
-- at any instant at which the principal has not expired and the prices are in effect, answers with
-- the ticket of the first call and writes nothing.
pub reserve-again :
    (l : Ledger) (p : Principal) (i : CallIdentity) (input output : ℕ) (w : Workload)
    (ticket ticket' : Uuid) (now later : Micros) (s : Store) {t : Uuid} {s' : Store}
    → reserve l p i input output w ticket now s ≡ (ok t, s')
    → ltb later p.expires ≡ true
    → ltb (l.calendar.date later) l.catalog.effective_date ≡ false
    → reserve l p i input output w ticket' later s' ≡ (ok t, s')
unfolding reserve
reserve-again l p i input output w ticket ticket' now later s {t} {s'} e h h' =
    elim (Bool-cases (valid_request l p i input output now)) [
      | inl v ↦
          let granted : priced l (price_of l.catalog i.provider i.model) p i input output w ticket
                now s
              ≡ (ok t, s') =
            ground arith in
          rw (valid_request-later l p i input output now later v h) (
            priced-again l (price_of l.catalog i.provider i.model) p i input output w ticket ticket'
              now later s granted h')
      | inr v ↦ ground arith
    ]
