-- ===== src/Governance/Bounds.antt =====
-- What a granted reservation of governance/ledger.py keeps of the limits.
use estudio_polymind_llm_orc.Prelude.{
  ℕ, ◌+◌, ◌≤◌, ◌≡◌, refl, Bool, false, ◌||◌, none, List, [], ◌∷◌, ◌++◌, ◌==◌, ==_refl, select,
  select-append, sum_of-append, Option-cases, inl, inr, arith,
}
use estudio_polymind_llm_orc.Jobs.Models.{Uuid, Micros, Scope}
use estudio_polymind_llm_orc.Security.Models.{Principal}
use estudio_polymind_llm_orc.Governance.Models.{
  cost, price_of, Limits, select_limits, Workload, CallIdentity, Calendar,
}
use estudio_polymind_llm_orc.Governance.Reservations.{
  Reservation, Store, ok, Ledger, Demand, over, denied, held, of_tenant, of_owner, new_row,
  reserve_new, reserve, reservation_of, event, is_unsettled,
}

over-false :
    (c : Calendar) (l : Limits) (rs : List Reservation) (d : Demand)
    → over c l rs d ≡ false
    → held rs + d.input + d.output ≤ l.reserved_tokens
unfolding over
over-false c l rs d h = ground arith

or-false : (a b : Bool) → (a || b) ≡ false → (a ≡ false) × (b ≡ false)
or-false a b h = ground arith

module _ (l : Ledger) where
  -- What a new reservation that is granted has passed, and what it writes.
  pub reserve_new-ok :
      (scope : Scope) (i : CallIdentity) (ticket : Uuid) (d : Demand) (s : Store) {t : Uuid}
      {s' : Store}
      → reserve_new l scope i ticket d s ≡ (ok t, s')
      → (denied l scope d s ≡ false)
        × (s'.reservations ≡ s.reservations ++ new_row l scope i ticket d ∷ [])
        × (t ≡ ticket)
        × (s'.configuration ≡ s.configuration)
  unfolding reserve_new event
  reserve_new-ok scope i ticket d s e = (ground arith, ground arith, ground arith, ground arith)

  held-new :
      (rs : List Reservation) (scope : Scope) (i : CallIdentity) (ticket : Uuid) (d : Demand)
      → held (rs ++ new_row l scope i ticket d ∷ []) ≡ held rs + d.input + d.output
  unfolding new_row
  held-new rs scope i ticket d =
      rw (select-append (λ r. is_unsettled r.state) rs (new_row l scope i ticket d ∷ [])) (
        omega (
          arith,
          sum_of-append (λ r. r.input + r.output) (select (λ r. is_unsettled r.state) rs)
              (new_row l scope i ticket d ∷ []),
        ))

  of_tenant-new :
      (rs : List Reservation) (scope : Scope) (i : CallIdentity) (ticket : Uuid) (d : Demand)
      → of_tenant scope (rs ++ new_row l scope i ticket d ∷ [])
        ≡ of_tenant scope rs ++ new_row l scope i ticket d ∷ []
  unfolding new_row
  of_tenant-new rs scope i ticket d =
      rw
        (select-append (λ (r : Reservation). r.scope.tenant == scope.tenant) rs
          (new_row l scope i ticket d ∷ []))
        (rw (==_refl scope.tenant) refl)

  of_owner-new :
      (rs : List Reservation) (scope : Scope) (i : CallIdentity) (ticket : Uuid) (d : Demand)
      → of_owner scope (rs ++ new_row l scope i ticket d ∷ [])
        ≡ of_owner scope rs ++ new_row l scope i ticket d ∷ []
  unfolding new_row
  of_owner-new rs scope i ticket d = rw (of_tenant-new rs scope i ticket d) (
      rw
        (select-append (λ (r : Reservation). r.scope.owner == scope.owner) (of_tenant scope rs)
          (new_row l scope i ticket d ∷ []))
        (rw (==_refl scope.owner) refl))

  -- The bounds of a granted reservation, on its tenant's rows and on its owner's.
  reserve_new-bounded :
      (scope : Scope) (i : CallIdentity) (ticket : Uuid) (d : Demand) (s : Store) {t : Uuid}
      {s' : Store}
      → reserve_new l scope i ticket d s ≡ (ok t, s')
      → (held (of_tenant scope s'.reservations) ≤ (select_limits l.policy scope).2.reserved_tokens)
        × (held (of_owner scope s'.reservations) ≤ (select_limits l.policy scope).1.reserved_tokens)
  unfolding denied
  reserve_new-bounded scope i ticket d s e =
      let (n, rows, _, _) = reserve_new-ok scope i ticket d s e in
      let (a, b) =
        or-false
          (over l.calendar (select_limits l.policy scope).2 (of_tenant scope s.reservations) d)
          (over l.calendar (select_limits l.policy scope).1 (of_owner scope s.reservations) d) n in
      (
        rw rows (
            rw (of_tenant-new s.reservations scope i ticket d) (
              rw (held-new (of_tenant scope s.reservations) scope i ticket d)
                (over-false l.calendar (select_limits l.policy scope).2 _ d a))),
        rw rows (
            rw (of_owner-new s.reservations scope i ticket d) (
              rw (held-new (of_owner scope s.reservations) scope i ticket d)
                (over-false l.calendar (select_limits l.policy scope).1 _ d b))),
      )

  -- A reservation that is granted comes from `reserve_new`, when its identity has none yet.
  reserve-ok :
      (p : Principal) (i : CallIdentity) (input output : ℕ) (w : Workload) (ticket : Uuid)
      (now : Micros) (s : Store) {t : Uuid} {s' : Store}
      → reserve l p i input output w ticket now s ≡ (ok t, s')
      → reservation_of l p.scope i s ≡ none
      → (d : Demand) × (reserve_new l p.scope i ticket d s ≡ (ok t, s'))
  unfolding reserve
  reserve-ok p i input output w ticket now s e fresh =
      elim (Option-cases (price_of l.catalog i.provider i.model)) [
        | inl missing ↦ ground arith
        | inr (price, f) ↦ (
          record {
            input = input;
            output = output;
            cost = cost price input output;
            workload = w;
            now = now;
          },
          ground arith,
        )
      ]

-- A reservation that is granted and that is no repetition leaves the tokens that are held and not
-- settled within the limits: those of the tenant within the tenant's `reserved_tokens`, those of
-- the owner within the owner's, the new ones counted.
pub reserve-bounded :
    (l : Ledger) (p : Principal) (i : CallIdentity) (input output : ℕ) (w : Workload)
    (ticket : Uuid) (now : Micros) (s : Store) {t : Uuid} {s' : Store}
    → reserve l p i input output w ticket now s ≡ (ok t, s')
    → reservation_of l p.scope i s ≡ none
    → (held (of_tenant p.scope s'.reservations)
        ≤ (select_limits l.policy p.scope).2.reserved_tokens)
      × (held (of_owner p.scope s'.reservations)
          ≤ (select_limits l.policy p.scope).1.reserved_tokens)
reserve-bounded l p i input output w ticket now s e fresh =
    let (d, n) = reserve-ok l p i input output w ticket now s e fresh in
    reserve_new-bounded l p.scope i ticket d s n
