-- ===== src/Governance/Settlement.antt =====
-- `transition`, `settle`, `usage` and `tenant_usage` of governance/ledger.py.
use estudio_polymind_llm_orc.Prelude.{
  ℕ, Bool, true, false, ◌&&◌, Option, none, some, ◌==◌, leb, length, find, any, select, sum_of,
  update, if◌then◌else◌, List, take, drop, sort_by, ltb, ◌||◌,
}
use estudio_polymind_llm_orc.Jobs.Models.{Uuid, Scope}
use estudio_polymind_llm_orc.Governance.Models.{Price, cost, price_of}
use estudio_polymind_llm_orc.Governance.Reservations.{
  ReservationState, reserved, admitting, started, released, unknown, settled, Reservation, Store,
  Result, ok, err, Ledger, reservation_conflict, pricing_unavailable, is_unsettled, of_tenant,
  of_owner, governance_denied,
}

-- the transitions that the code allows
pub data Move : Type 0 where
  reserved_admitting admitting_started admitting_released : Move

-- the state before, and the state after
abbrev pub is_before : Move → ReservationState → Bool
is_before reserved_admitting reserved = true
is_before admitting_started admitting = true
is_before admitting_released admitting = true
is_before _ _ = false

abbrev pub after : Move → ReservationState
after reserved_admitting = admitting
after admitting_started = started
after admitting_released = released

-- `transition`: an UPDATE that changes no row is a conflict
unfoldable pub transition : Uuid → Move → Store → Result (Unit {0}) × Store
transition ticket m s =
    if any (λ r. r.ticket == ticket && is_before m r.state) s.reservations
    then (
      ok tt,
      record s {
        reservations =
            update (λ r. r.ticket == ticket && is_before m r.state)
              (λ r. record r { state = after m }) s.reservations;
      },
    )
    else (err reservation_conflict, s)

-- the counts of a usage are at most 10⁹
abbrev pub valid_count : Option ℕ → Bool
valid_count none = true
valid_count (some n) = leb n 1000000000

-- a count that is known must not change
abbrev pub keeps : Option ℕ → Option ℕ → Bool
keeps none new = true
keeps (some a) none = false
keeps (some a) (some b) = a == b

abbrev pub is_count : Option ℕ → ℕ → Bool
is_count none n = false
is_count (some m) n = m == n

-- the state of a row whose cost is known
abbrev pub priced_state : Option Price → ℕ → ℕ → Result (Option ReservationState)
priced_state none i o = err pricing_unavailable
priced_state (some p) i o = ok (some (settled i o (cost p i o)))

-- the state that a settlement writes: `settled` when both counts are known
abbrev pub written : Ledger → Reservation → Option ℕ → Option ℕ → Result (Option ReservationState)
written l r (some i) (some o) =
    priced_state (price_of l.catalog r.identity.provider r.identity.model) i o
written l r i o = ok (some (unknown i o))

-- the branches of `settle` on the state of the row; `none` writes nothing
unfoldable pub settle_state :
    Ledger → Reservation → ReservationState → Option ℕ → Option ℕ → Result (Option ReservationState)
settle_state l r started i o = written l r i o
settle_state l r (unknown a b) i o =
    if keeps a i && keeps b o then written l r i o else err reservation_conflict
settle_state l r (settled a b c) i o =
    if is_count i a && is_count o b then ok none else err reservation_conflict
settle_state l r _ i o = err reservation_conflict

abbrev pub write_state : Uuid → Result (Option ReservationState) → Store → Result (Unit {0}) × Store
write_state ticket (err e) s = (err e, s)
write_state ticket (ok none) s = (ok tt, s)
write_state ticket (ok (some state)) s = (
  ok tt,
  record s {
    reservations =
        update (λ r. r.ticket == ticket) (λ r. record r { state = state }) s.reservations;
  },
)

abbrev pub settle_row :
    Ledger → Uuid → Option Reservation → Option ℕ → Option ℕ → Store → Result (Unit {0}) × Store
settle_row l ticket none i o s = (err reservation_conflict, s)
settle_row l ticket (some r) i o s = write_state ticket (settle_state l r r.state i o) s

-- SELECT * FROM reservations WHERE ticket=?
unfoldable pub by_ticket : Uuid → Store → Option Reservation
by_ticket ticket s = find (λ r. r.ticket == ticket) s.reservations

-- `settle`, with the two counts of the usage
unfoldable pub settle : Ledger → Uuid → Option ℕ → Option ℕ → Store → Result (Unit {0}) × Store
settle l ticket i o s =
    if valid_count i && valid_count o
    then settle_row l ticket (by_ticket ticket s) i o s
    else (err reservation_conflict, s)

pub record TenantUsage : Type 0 where
  pub calls : ℕ
  pub unsettled_cost : ℕ
  pub measured_cost : ℕ

abbrev pub measured : ReservationState → ℕ
measured (settled i o c) = c
measured _ = 0

-- `tenant_usage`, behind the authorization
unfoldable pub tenant_usage : Scope → Store → TenantUsage
tenant_usage scope s =
    let rows = of_tenant scope s.reservations in
    record {
      calls = length rows;
      unsettled_cost = sum_of (λ r. r.cost) (select (λ r. is_unsettled r.state) rows);
      measured_cost = sum_of (λ r. measured r.state) rows;
    }

-- ORDER BY created,ticket
abbrev pub earlier : Reservation → Reservation → Bool
earlier a b = ltb a.created b.created || (a.created == b.created && ltb a.ticket b.ticket)

-- `usage`, behind the authorization: a page of the owner's reservations
unfoldable pub usage : Scope → ℕ → ℕ → Store → Result (List Reservation)
usage scope limit offset s =
    if leb 1 limit && leb limit 100 && leb offset 10000
    then ok (take limit (drop offset (sort_by earlier (of_owner scope s.reservations))))
    else err governance_denied
