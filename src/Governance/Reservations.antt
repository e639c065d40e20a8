-- ===== src/Governance/Reservations.antt =====
-- The tables of governance/ledger.py and `reserve`.
use estudio_polymind_llm_orc.Prelude.{
  ℕ, ◌+◌, ◌*◌, String, Bool, true, false, not, ◌&&◌, ◌||◌, Option, none, some, List, [], ◌∷◌, ◌++◌,
  ◌==◌, ltb, leb, str_eq, length, find, select, count, sum_of, if◌then◌else◌,
}
use estudio_polymind_llm_orc.Jobs.Models.{Uuid, Micros, Scope, same_scope}
use estudio_polymind_llm_orc.Governance.Models.{
  Price, cost, PricingCatalog, price_of, Limits, QuotaPolicy, select_limits, Workload, interactive,
  document_background, same_workload, CallIdentity, same_identity, same_call, Calendar,
}
use estudio_polymind_llm_orc.Security.Models.{Principal}

-- The column `state` with the columns that it determines: `actual_input`, `actual_output` and
-- `actual_cost` are NULL before a settlement, and a settled row has all three.
pub data ReservationState : Type 0 where
  reserved admitting started released : ReservationState
  unknown : Option ℕ → Option ℕ → ReservationState
  settled : ℕ → ℕ → ℕ → ReservationState

-- a row of `reservations`
pub record Reservation : Type 0 where
  pub ticket : Uuid
  pub scope : Scope
  pub identity : CallIdentity
  pub workload : Workload
  pub policy : String
  pub catalog : String
  pub input : ℕ
  pub output : ℕ
  pub cost : ℕ
  pub state : ReservationState
  pub created : Micros

pub data Event : Type 0 where
  admission_denied reserved_event : Event

pub record EventRow : Type 0 where
  pub scope : Scope
  pub action : Event
  pub at : Micros

-- `configuration` is the row of that table: the JSON texts of the policy and of the catalog.
pub record Store : Type 0 where
  pub configuration : Option (String × String)
  pub reservations : List Reservation
  pub events : List EventRow

pub data Error : Type 0 where
  governance_denied pricing_unavailable reservation_conflict : Error
  security_unavailable security_configuration : Error

pub data Result {ℓ} (A : Type ℓ) : Type ℓ where
  ok : A → Result A
  err : Error → Result A

-- a ledger: its configuration, the texts that pydantic makes of it, and the bound on its events
pub record Ledger : Type 0 where
  pub policy : QuotaPolicy
  pub catalog : PricingCatalog
  pub policy_text : String
  pub catalog_text : String
  pub event_limit : ℕ
  pub calendar : Calendar

-- `unsettled`
abbrev pub is_unsettled : ReservationState → Bool
is_unsettled (settled i o c) = false
is_unsettled released = false
is_unsettled _ = true

abbrev pub is_released : ReservationState → Bool
is_released released = true
is_released _ = false

-- state in {'RESERVED','ADMITTING','STARTED'}
abbrev pub is_active : ReservationState → Bool
is_active reserved = true
is_active admitting = true
is_active started = true
is_active _ = false

-- `tokens`; a released row is not asked
abbrev pub tokens_in : ReservationState → ℕ → ℕ
tokens_in (settled i o c) held = i + o
tokens_in _ held = held

abbrev pub tokens : Reservation → ℕ
tokens r = tokens_in r.state (r.input + r.output)

abbrev pub expense_in : ReservationState → ℕ → ℕ
expense_in (settled i o c) held = c
expense_in _ held = held

abbrev pub expense : Reservation → ℕ
expense r = expense_in r.state r.cost

abbrev pub cap : Limits → Workload → ℕ
cap l interactive = l.interactive_concurrent
cap l document_background = l.background_concurrent

-- the rows that count against a period that starts at `start`
abbrev pub spent_since : Micros → List Reservation → List Reservation
spent_since start rs =
    select (λ r. not (is_released r.state) && (leb start r.created || is_unsettled r.state)) rs

-- the tokens that are held and not settled
abbrev pub held : List Reservation → ℕ
held rs = sum_of (λ r. r.input + r.output) (select (λ r. is_unsettled r.state) rs)

-- what a reservation asks for
pub record Demand : Type 0 where
  pub input : ℕ
  pub output : ℕ
  pub cost : ℕ
  pub workload : Workload
  pub now : Micros

-- The tests of the loop of `reserve` against one set of limits, on the rows that it counts.
unfoldable pub over : Calendar → Limits → List Reservation → Demand → Bool
over c l rs d =
    leb l.requests_per_window (count (λ r. ltb d.now (r.created + l.window_seconds * 1000000)) rs)
    || leb (cap l d.workload)
        (count (λ r. is_active r.state && same_workload r.workload d.workload) rs)
    || ltb l.reserved_tokens (held rs + d.input + d.output)
    || ltb l.daily_tokens (sum_of tokens (spent_since (c.day_start d.now) rs) + d.input + d.output)
    || ltb l.monthly_tokens
        (sum_of tokens (spent_since (c.month_start d.now) rs) + d.input + d.output)
    || ltb (l.monthly_cost * 1000000000)
        (sum_of expense (spent_since (c.month_start d.now) rs) + d.cost)

abbrev pub of_tenant : Scope → List Reservation → List Reservation
of_tenant scope = select (λ r. r.scope.tenant == scope.tenant)

abbrev pub of_owner : Scope → List Reservation → List Reservation
of_owner scope rs = select (λ r. r.scope.owner == scope.owner) (of_tenant scope rs)

module _ (l : Ledger) where
  abbrev pub same_configuration : Option (String × String) → Bool
  same_configuration none = false
  same_configuration (some (policy, catalog)) =
      str_eq policy l.policy_text && str_eq catalog l.catalog_text

  -- `_current_policy`
  unfoldable pub current_policy : Store → Bool
  current_policy s = same_configuration s.configuration

  -- `_event`
  unfoldable pub event : Scope → Event → Micros → Store → Result Store
  event scope action now s =
      if leb l.event_limit (length s.events)
      then err security_unavailable
      else ok (record s {
        events = s.events ++ record { scope = scope; action = action; at = now } ∷ [];
      })

  -- both passes of the loop of `reserve`
  unfoldable pub denied : Scope → Demand → Store → Bool
  unfolding over
  denied scope d s =
      let (version, owner_limits, tenant_limits) = select_limits l.policy scope in
      over l.calendar tenant_limits (of_tenant scope s.reservations) d
      || over l.calendar owner_limits (of_owner scope s.reservations) d

  -- the tests of `reserve` on its arguments
  unfoldable pub valid_request : Principal → CallIdentity → ℕ → ℕ → Micros → Bool
  valid_request p identity input output now =
      ltb now p.expires
      && same_scope identity.scope p.scope
      && leb 1 identity.attempt
      && leb 1 output
      && leb (input + output) 1000000000

  -- SELECT * FROM reservations WHERE tenant=? AND owner=? AND identity_key=?
  unfoldable pub reservation_of : Scope → CallIdentity → Store → Option Reservation
  reservation_of scope identity s =
      find (λ r. same_scope r.scope scope && same_call r.identity identity) s.reservations

  -- a repetition answers with its ticket
  unfoldable pub repeat : Reservation → CallIdentity → Demand → Store → Result Uuid × Store
  repeat r identity d s =
      if r.input == d.input
        && r.output == d.output
        && same_workload r.workload d.workload
        && same_identity r.identity identity
      then (ok r.ticket, s)
      else (err reservation_conflict, s)

  abbrev pub recorded : {A : Type 0} → Result A → Result Store → Store → Result A × Store
  recorded answer (ok s') s = (answer, s')
  recorded answer (err e) s = (err e, s)

  -- the row that `reserve` inserts
  unfoldable pub new_row : Scope → CallIdentity → Uuid → Demand → Reservation
  new_row scope identity ticket d = record {
    ticket = ticket;
    scope = scope;
    identity = identity;
    workload = d.workload;
    policy = (select_limits l.policy scope).0;
    catalog = l.catalog.version;
    input = d.input;
    output = d.output;
    cost = d.cost;
    state = reserved;
    created = d.now;
  }

  -- a new reservation: a denial is an event too
  unfoldable pub reserve_new : Scope → CallIdentity → Uuid → Demand → Store → Result Uuid × Store
  unfolding denied event new_row
  reserve_new scope identity ticket d s =
      if denied scope d s
      then recorded (err governance_denied) (event scope admission_denied d.now s) s
      else recorded (ok ticket)
          (event scope reserved_event d.now
            (record s { reservations = s.reservations ++ new_row scope identity ticket d ∷ [] }))
          s

  -- the transaction of `reserve`
  abbrev pub in_transaction :
      Option Reservation → Scope → CallIdentity → Uuid → Demand → Store → Result Uuid × Store
  in_transaction (some r) scope identity ticket d s = repeat r identity d s
  in_transaction none scope identity ticket d s = reserve_new scope identity ticket d s

  -- the part of `reserve` behind the price
  abbrev pub priced :
      Option Price
      → Principal
      → CallIdentity
      → ℕ
      → ℕ
      → Workload
      → Uuid
      → Micros
      → Store
      → Result Uuid × Store
  priced none p identity input output w ticket now s = (err pricing_unavailable, s)
  priced (some price) p identity input output w ticket now s =
      if ltb (l.calendar.date now) l.catalog.effective_date
      then (err pricing_unavailable, s)
      else if ltb 2048 (l.calendar.encoded_length identity)
      then (err governance_denied, s)
      else if not (current_policy s)
      then (err security_configuration, s)
      else in_transaction (reservation_of p.scope identity s) p.scope identity ticket
          (record {
            input = input;
            output = output;
            cost = cost price input output;
            workload = w;
            now = now;
          })
          s

  -- `reserve`, with the random ticket of a new reservation
  unfoldable pub reserve :
      Principal → CallIdentity → ℕ → ℕ → Workload → Uuid → Micros → Store → Result Uuid × Store
  reserve p identity input output w ticket now s =
      if valid_request p identity input output now
      then priced (price_of l.catalog identity.provider identity.model) p identity input output w
          ticket now s
      else (err governance_denied, s)
