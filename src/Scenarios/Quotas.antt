-- ===== src/Scenarios/Quotas.antt =====
-- Calls against a quota, and reservations against limits.
use estudio_polymind_llm_orc.Prelude.{
  ℕ, ◌≤◌, ◌≡◌, refl, String, Option, true, false, none, some, List, [], ◌∷◌,
}
use estudio_polymind_llm_orc.Jobs.Models.{Scope}
use estudio_polymind_llm_orc.Governance.Models.{
  interactive, document_background, CallIdentity, cost, price_of, Limits, select_limits,
}
use estudio_polymind_llm_orc.Governance.Reservations.{
  ReservationState, reserved, started, settled, Reservation, reserved_event, Store, ok, err, Ledger,
  reservation_conflict, held, of_tenant, of_owner, reserve, reserve_new, reservation_of,
  valid_request, denied, over, event, new_row, current_policy,
}
use estudio_polymind_llm_orc.Governance.Settlement.{settle, settle_state, by_ticket}
use estudio_polymind_llm_orc.Governance.Bounds.{reserve-bounded}
use estudio_polymind_llm_orc.Governance.Repeating.{reserve-again}
use estudio_polymind_llm_orc.Governance.Final.{settle-final}
use estudio_polymind_llm_orc.Inference.Admission as Calls
use estudio_polymind_llm_orc.Inference.Quota.{IsWithin, acquire-IsWithin, finish-once}
use estudio_polymind_llm_orc.Security.Models.{Principal, user}

abbrev bob : Scope
bob = record { tenant = 1; owner = 3 }

abbrev a_call : ℕ → CallIdentity
a_call attempt = record {
  scope = bob;
  job = 10;
  step = 11;
  attempt = attempt;
  profile = "profile/1";
  provider = "openai";
  role = "analysis";
  model = "small";
  capability = "chat";
}

abbrev policy : Calls.AdmissionPolicy
policy = record {
  rpm = 10;
  tpm = 10000;
  concurrent = 4;
  interactive_rpm = 4;
  interactive_tpm = 4000;
  interactive_slots = 2;
  per_job_concurrent = 1;
  per_job_rpm = 3;
}

abbrev first_call : List Calls.CallRow
first_call = Calls.new_call "q" (a_call 1) 100 200 document_background 1 70000000 ∷ []

acquire-IsWithin_example : IsWithin policy "q" 70000000 first_call
unfolding Calls.acquire Calls.denied Calls.over_quota Calls.over_documents Calls.quota_rows
acquire-IsWithin_example =
    acquire-IsWithin policy "q" (a_call 1) 100 200 document_background 1 70000000 [] {t = 1}
      {calls' = first_call} refl

abbrev finished_call : List Calls.CallRow
finished_call =
    Calls.finished "success" (some "usage")
      (Calls.new_call "q" (a_call 1) 100 200 document_background 1 70000000)
    ∷ []

finish-once_example :
    Calls.finish "q" 1 none "timeout" finished_call
    ≡ (Calls.err Calls.configuration_error, finished_call)
unfolding Calls.finish
finish-once_example =
    finish-once "q" 1 (some "usage") none "success" "timeout" first_call finished_call refl

abbrev limits : Limits
limits = record {
  requests_per_window = 5;
  window_seconds = 60;
  interactive_concurrent = 2;
  background_concurrent = 2;
  reserved_tokens = 1000;
  daily_tokens = 5000;
  monthly_tokens = 50000;
  monthly_cost = 1000000000000;
}

-- the row that the ledger has stored of its texts
abbrev stored : Option (String × String)
stored = some ("policy", "catalog")

abbrev the_ledger : Ledger
the_ledger = record {
  policy = record { version = "quota/1"; owner = limits; tenant = limits; evaluation = none };
  catalog = record {
    version = "prices/1";
    effective_date = 20260101;
    operator_approved = true;
    prices =
        record {
          provider = "openai";
          model = "small";
          input_price = 1000;
          output_price = 2000;
          price_unit = 1000;
        }
        ∷ [];
  };
  policy_text = "policy";
  catalog_text = "catalog";
  event_limit = 100;
  calendar = record {
    day_start = λ _. 0;
    month_start = λ _. 0;
    date = λ _. 20260601;
    encoded_length = λ _. 300;
  };
}

abbrev a_principal : Principal
a_principal = record {
  identity = record { issuer = "https://issuer"; tenant_identity = "t"; subject = "bob" };
  scope = bob;
  permissions = λ _. false;
  kind = user;
  expires = 900000000;
}

abbrev a_row : ReservationState → Reservation
a_row state = record {
  ticket = 5;
  scope = bob;
  identity = a_call 1;
  workload = interactive;
  policy = "quota/1";
  catalog = "prices/1";
  input = 100;
  output = 200;
  cost = 500000000000;
  state = state;
  created = 70000000;
}

abbrev no_rows : Store
no_rows = record { configuration = stored; reservations = []; events = [] }

abbrev one_row : Store
one_row = record {
  configuration = stored;
  reservations = a_row reserved ∷ [];
  events = record { scope = bob; action = reserved_event; at = 70000000 } ∷ [];
}

reserve-bounded_example :
    (held (of_tenant bob one_row.reservations) ≤ 1000)
    × (held (of_owner bob one_row.reservations) ≤ 1000)
unfolding reserve current_policy reserve_new reservation_of valid_request denied over event new_row
    price_of cost select_limits
reserve-bounded_example =
    reserve-bounded the_ledger a_principal (a_call 1) 100 200 interactive 5 70000000 no_rows {t = 5}
      {s' = one_row} refl refl

reserve-again_example :
    reserve the_ledger a_principal (a_call 1) 100 200 interactive 6 80000000 one_row
    ≡ (ok 5, one_row)
unfolding reserve current_policy reserve_new reservation_of valid_request denied over event new_row
    price_of cost select_limits
reserve-again_example =
    reserve-again the_ledger a_principal (a_call 1) 100 200 interactive 5 6 70000000 80000000
      no_rows {t = 5} {s' = one_row} refl refl refl

abbrev with_state : ReservationState → Store
with_state state = record { configuration = stored; reservations = a_row state ∷ []; events = [] }

settle-final_example :
    settle the_ledger 5 (some 90) (some 10) (with_state (settled 90 150 390000000000))
    ≡ (err reservation_conflict, with_state (settled 90 150 390000000000))
unfolding settle settle_state by_ticket price_of cost
settle-final_example =
    settle-final the_ledger 5 90 150 (some 90) (some 10) (with_state started)
      {s' = with_state (settled 90 150 390000000000)} refl
