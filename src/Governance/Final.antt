-- ===== src/Governance/Final.antt =====
-- `settle` of governance/ledger.py, repeated.
use estudio_polymind_llm_orc.Prelude.{
  ℕ, ◌≡◌, refl, subst, ap, true, ◌&&◌, Option, none, some, ◌==◌, find-update, Option-cases, inl,
  inr, arith, if◌then◌else◌, leb,
}
use estudio_polymind_llm_orc.Jobs.Models.{Uuid}
use estudio_polymind_llm_orc.Governance.Models.{cost, price_of}
use estudio_polymind_llm_orc.Governance.Reservations.{
  ReservationState, reserved, admitting, started, released, unknown, settled, Reservation, Store,
  Result, ok, err, Ledger, reservation_conflict,
}
use estudio_polymind_llm_orc.Governance.Settlement.{
  settle, settle_state, write_state, by_ticket, is_count, valid_count, written,
}

-- the row of a ticket is settled with the two counts
abbrev pub HasSettled : Uuid → ℕ → ℕ → Store → Type 0
HasSettled ticket i o s =
    (r : Reservation) × (c : ℕ) × (by_ticket ticket s ≡ some r) × (r.state ≡ settled i o c)

settled_by :
    (l : Ledger) (r : Reservation) (i o : ℕ) (n : ReservationState)
    → written l r (some i) (some o) ≡ ok (some n)
    → (c : ℕ) × (n ≡ settled i o c)
settled_by l r i o n h =
    elim (Option-cases (price_of l.catalog r.identity.provider r.identity.model)) [
      | inl missing ↦ ground arith
      | inr (p, f) ↦ (cost p i o, ground arith)
    ]

-- the state after a settlement with both counts
settle_state-settled :
    (l : Ledger) (r : Reservation) (state : ReservationState) (i o : ℕ) {n : ReservationState}
    → settle_state l r state (some i) (some o) ≡ ok (some n)
    → (c : ℕ) × (n ≡ settled i o c)
unfolding settle_state
settle_state-settled l r reserved i o h = cc
settle_state-settled l r admitting i o h = cc
settle_state-settled l r released i o h = cc
settle_state-settled l r started i o {n} h = settled_by l r i o n h
settle_state-settled l r (unknown a b) i o {n} h = settled_by l r i o n (ground arith)
settle_state-settled l r (settled a b c) i o h = absurd (ground arith)

settle_state-none :
    (l : Ledger) (r : Reservation) (state : ReservationState) (i o : ℕ)
    → settle_state l r state (some i) (some o) ≡ ok none
    → (c : ℕ) × (state ≡ settled i o c)
unfolding settle_state
settle_state-none l r reserved i o h = cc
settle_state-none l r admitting i o h = cc
settle_state-none l r released i o h = cc
settle_state-none l r started i o h =
    elim (Option-cases (price_of l.catalog r.identity.provider r.identity.model)) [
      | inl missing ↦ ground arith
      | inr (p, f) ↦ ground arith
    ]
settle_state-none l r (unknown a b) i o h =
    elim (Option-cases (price_of l.catalog r.identity.provider r.identity.model)) [
      | inl missing ↦ ground arith
      | inr (p, f) ↦ ground arith
    ]
settle_state-none l r (settled a b c) i o h = (c, ground arith)

write_state-HasSettled :
    (l : Ledger) (ticket : Uuid) (i o : ℕ) (s : Store) (r : Reservation)
    (x : Result (Option ReservationState)) {s' : Store}
    → by_ticket ticket s ≡ some r
    → settle_state l r r.state (some i) (some o) ≡ x
    → write_state ticket x s ≡ (ok tt, s')
    → HasSettled ticket i o s'
unfolding by_ticket
write_state-HasSettled l ticket i o s r (err e) f h w = cc
write_state-HasSettled l ticket i o s r (ok none) f h w =
    let (c, q) = settle_state-none l r r.state i o h in
    subst (HasSettled ticket i o) (ap (λ x. x.1) w) (r, c, f, q)
write_state-HasSettled l ticket i o s r (ok (some n)) f h w =
    let (c, q) = settle_state-settled l r r.state i o h in
    subst (HasSettled ticket i o) (ap (λ x. x.1) w) (
      record r { state = n },
      c,
      find-update (λ x. x.ticket == ticket) (λ x. x.ticket == ticket) (λ x. record x { state = n })
          s.reservations (λ z. refl) (λ z m. m) f,
      q,
    )

-- A settlement with both counts that returns leaves the row settled with these counts.
settle-HasSettled :
    (l : Ledger) (ticket : Uuid) (i o : ℕ) (s : Store) {s' : Store}
    → settle l ticket (some i) (some o) s ≡ (ok tt, s')
    → (leb i 1000000000 ≡ true) × (leb o 1000000000 ≡ true) × HasSettled ticket i o s'
unfolding settle
settle-HasSettled l ticket i o s {s'} e = elim (Option-cases (by_ticket ticket s)) [
  | inl missing ↦ absurd (ground arith)
  | inr (r, f) ↦
      (ground arith, ground arith, write_state-HasSettled l ticket i o s r _ f refl (ground arith))
]

answer :
    (i o c : ℕ) (l : Ledger) (r : Reservation) (ticket : Uuid) (x y : Option ℕ) (s : Store)
    → leb i 1000000000 ≡ true
    → leb o 1000000000 ≡ true
    → (if valid_count x && valid_count y
        then write_state ticket (settle_state l r (settled i o c) x y) s
        else (err reservation_conflict, s))
      ≡ (if is_count x i && is_count y o then ok tt else err reservation_conflict, s)
unfolding settle_state
answer i o c l r ticket none none s hi ho = refl
answer i o c l r ticket none (some y) s hi ho = ground arith
answer i o c l r ticket (some x) none s hi ho = ground arith
answer i o c l r ticket (some x) (some y) s hi ho = ground arith

-- After a settlement with both counts has returned, every later settlement of the ticket writes
-- nothing; it returns when it gives the same two counts, and is the conflict otherwise.
pub settle-final :
    (l : Ledger) (ticket : Uuid) (i o : ℕ) (x y : Option ℕ) (s : Store) {s' : Store}
    → settle l ticket (some i) (some o) s ≡ (ok tt, s')
    → settle l ticket x y s'
      ≡ (if is_count x i && is_count y o then ok tt else err reservation_conflict, s')
unfolding settle
settle-final l ticket i o x y s {s'} e =
    let (hi, ho, (r, c, f, q)) = settle-HasSettled l ticket i o s e in
    rw f (rw q (answer i o c l r ticket x y s' hi ho))
