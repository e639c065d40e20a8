-- ===== src/Inference/Quota.antt =====
-- What the calls of llm/admission.py keep of the shared quota.
use estudio_polymind_llm_orc.Prelude.{
  ℕ, suc, ◌+◌, ◌≤◌, ◌≡◌, refl, sym, subst, String, Bool, true, false, Option, List, [], ◌∷◌, ◌++◌,
  ◌==◌, length, select, find, find-update, select-append, sum_of-append, length-append, str_eq, ltb,
  Option-cases, inl, inr, arith, str_eq_refl, ◌||◌, ◌&&◌, &&-eq-true,
}
use estudio_polymind_llm_orc.Jobs.Models.{Uuid, Micros}
use estudio_polymind_llm_orc.Governance.Models.{Workload, CallIdentity}
use estudio_polymind_llm_orc.Inference.Admission.{
  AdmissionPolicy, CallRow, ok, err, configuration_error, is_recent, quota_rows, reserved,
  over_quota, denied, acquire, finish, finished, known_outcome, new_call,
}

-- the calls of the last minute, and the unfinished ones
abbrev pub recent_of : String → Micros → List CallRow → List CallRow
recent_of quota now calls = select (is_recent now) (quota_rows quota now calls)

abbrev pub active_of : String → Micros → List CallRow → List CallRow
active_of quota now calls = select (λ r. r.active) (quota_rows quota now calls)

-- the bounds of the policy on a quota at an instant
pub record IsWithin (p : AdmissionPolicy) (quota : String) (now : Micros) (calls : List CallRow)
    : Type 0 where
  pub requests : length (recent_of quota now calls) ≤ p.rpm
  pub tokens : reserved (recent_of quota now calls) ≤ p.tpm
  pub slots : length (active_of quota now calls) ≤ p.concurrent

recent_now : (now : Micros) → ltb now (now + 60000000) ≡ true
recent_now now = ground arith

quota_rows-new :
    (quota : String) (i : CallIdentity) (input output : ℕ) (w : Workload) (ticket : Uuid)
    (now : Micros) (calls : List CallRow)
    → quota_rows quota now (calls ++ new_call quota i input output w ticket now ∷ [])
      ≡ quota_rows quota now calls ++ new_call quota i input output w ticket now ∷ []
unfolding quota_rows
quota_rows-new quota i input output w ticket now calls =
    rw (select-append _ calls (new_call quota i input output w ticket now ∷ []))
      (rw (str_eq_refl quota) (rw (recent_now now) refl))

recent_of-new :
    (quota : String) (i : CallIdentity) (input output : ℕ) (w : Workload) (ticket : Uuid)
    (now : Micros) (calls : List CallRow)
    → recent_of quota now (calls ++ new_call quota i input output w ticket now ∷ [])
      ≡ recent_of quota now calls ++ new_call quota i input output w ticket now ∷ []
recent_of-new quota i input output w ticket now calls =
    rw (quota_rows-new quota i input output w ticket now calls) (
      rw
        (select-append (is_recent now) (quota_rows quota now calls)
          (new_call quota i input output w ticket now ∷ []))
        (rw (recent_now now) refl))

active_of-new :
    (quota : String) (i : CallIdentity) (input output : ℕ) (w : Workload) (ticket : Uuid)
    (now : Micros) (calls : List CallRow)
    → active_of quota now (calls ++ new_call quota i input output w ticket now ∷ [])
      ≡ active_of quota now calls ++ new_call quota i input output w ticket now ∷ []
active_of-new quota i input output w ticket now calls =
    rw (quota_rows-new quota i input output w ticket now calls) (
      select-append (λ r. r.active) (quota_rows quota now calls)
        (new_call quota i input output w ticket now ∷ []))

-- What a granted call has passed.
granted :
    (p : AdmissionPolicy) (quota : String) (i : CallIdentity) (input output : ℕ) (w : Workload)
    (ticket : Uuid) (now : Micros) (calls : List CallRow) {t : Uuid} {calls' : List CallRow}
    → acquire p quota i input output w ticket now calls ≡ (ok t, calls')
    → (denied p i (input + output) w now (quota_rows quota now calls) ≡ false)
      × (calls' ≡ calls ++ new_call quota i input output w ticket now ∷ [])
unfolding acquire
granted p quota i input output w ticket now calls {t} {calls'} e = (ground arith, ground arith)

over_quota-false :
    (p : AdmissionPolicy) (tokens : ℕ) (recent active : List CallRow)
    → over_quota p tokens recent active ≡ false
    → (suc (length recent) ≤ p.rpm)
      × (reserved recent + tokens ≤ p.tpm)
      × (suc (length active) ≤ p.concurrent)
unfolding over_quota
over_quota-false p tokens recent active h = (ground arith, ground arith, ground arith)

or-false : (a b : Bool) → (a || b) ≡ false → (a ≡ false) × (b ≡ false)
or-false a b h = ground arith

-- A call that is granted leaves the quota within the policy at its instant: the calls of the last
-- minute are at most rpm and reserve at most tpm tokens, the new one counted, and at most
-- `concurrent` calls are unfinished.
pub acquire-IsWithin :
    (p : AdmissionPolicy) (quota : String) (i : CallIdentity) (input output : ℕ) (w : Workload)
    (ticket : Uuid) (now : Micros) (calls : List CallRow) {t : Uuid} {calls' : List CallRow}
    → acquire p quota i input output w ticket now calls ≡ (ok t, calls')
    → IsWithin p quota now calls'
unfolding denied
acquire-IsWithin p quota i input output w ticket now calls {t} {calls'} e =
    let (d, same) = granted p quota i input output w ticket now calls e in
    let (q, _) =
      or-false
        (over_quota p (input + output) (recent_of quota now calls) (active_of quota now calls)) _
        d in
    let (a, b, c) = over_quota-false p (input + output) _ _ q in
    let row = new_call quota i input output w ticket now in
    subst (IsWithin p quota now) (sym same) (record {
      requests =
          rw (recent_of-new quota i input output w ticket now calls)
            (omega (arith, length-append (recent_of quota now calls) (row ∷ []), a));
      tokens = rw (recent_of-new quota i input output w ticket now calls) (
          omega (
            arith,
            sum_of-append (λ r. r.estimated_input + r.reserved_output) (recent_of quota now calls)
                (row ∷ []),
            b,
          ));
      slots =
          rw (active_of-new quota i input output w ticket now calls)
            (omega (arith, length-append (active_of quota now calls) (row ∷ []), c));
    })

-- A call that finished cannot be finished again, with any usage and outcome: it is the
-- configuration error, and nothing is written.
pub finish-once :
    (quota : String) (ticket : Uuid) (u v : Option String) (a b : String)
    (calls calls' : List CallRow)
    → finish quota ticket u a calls ≡ (ok tt, calls')
    → finish quota ticket v b calls' ≡ (err configuration_error, calls')
unfolding finish
finish-once quota ticket u v a b calls calls' e =
    elim (Option-cases (find (λ r. r.ticket == ticket && str_eq r.quota quota) calls)) [
      | inl missing ↦ ground arith
      | inr (row, f) ↦
          let g =
            find-update (λ r. r.ticket == ticket && str_eq r.quota quota) (λ r. r.ticket == ticket)
              (finished (known_outcome a) u) calls (λ z. refl)
              (λ z h. (&&-eq-true (z.ticket == ticket) (str_eq z.quota quota) h).0) f in
          ground (arith, g)
    ]
