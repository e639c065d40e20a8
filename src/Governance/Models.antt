-- ===== src/Governance/Models.antt =====
-- The configuration of governance/ledger.py. An amount of money is a whole number of 10⁻²¹ units of
-- the currency, a price is one of 10⁻¹² units, as `money` allows; instants are microseconds.
use estudio_polymind_llm_orc.Prelude.{
  ℕ, ◌+◌, ◌*◌, ◌/◌, ◌^◌, String, Bool, true, false, not, ◌&&◌, Option, none, some, List, [], ◌∷◌,
  ◌==◌, str_eq, leb, length, any, find, if◌then◌else◌,
}
use estudio_polymind_llm_orc.Jobs.Models.{Uuid, Micros, Scope, same_scope}

-- `money`, for an amount in 10⁻¹² units
abbrev pub valid_money : ℕ → Bool
valid_money d = leb d (10 ^ 24)

pub record Price : Type 0 where
  pub provider : String
  pub model : String
  pub input_price : ℕ
  pub output_price : ℕ
  pub price_unit : ℕ

abbrev pub powers : List ℕ
powers = 1 ∷ 10 ∷ 100 ∷ 1000 ∷ 10000 ∷ 100000 ∷ 1000000 ∷ 10000000 ∷ 100000000 ∷ 1000000000 ∷ []

-- the validators of `Price` on its numbers
unfoldable pub valid_price : Price → Bool
valid_price p =
    valid_money p.input_price && valid_money p.output_price && any (λ u. u == p.price_unit) powers

-- `Price.cost`: the unit divides 10⁹, so the quotient is exact
unfoldable pub cost : Price → ℕ → ℕ → ℕ
cost p input output = (p.input_price * input + p.output_price * output) * 1000000000 / p.price_unit

pub record PricingCatalog : Type 0 where
  pub version : String
  -- the date as a number that orders as the text does
  pub effective_date : ℕ
  pub operator_approved : Bool
  pub prices : List Price

abbrev pub same_model : String → String → Price → Bool
same_model provider model p = str_eq p.provider provider && str_eq p.model model

abbrev pub distinct_models : List Price → Bool
distinct_models [] = true
distinct_models (p ∷ ps) = not (any (same_model p.provider p.model) ps) && distinct_models ps

-- `PricingCatalog.approved`
unfoldable pub approved : PricingCatalog → Bool
approved c =
    c.operator_approved
    && distinct_models c.prices
    && leb 1 (length c.prices)
    && leb (length c.prices) 128

-- `PricingCatalog.price`
unfoldable pub price_of : PricingCatalog → String → String → Option Price
price_of c provider model = find (same_model provider model) c.prices

pub record Limits : Type 0 where
  pub requests_per_window : ℕ
  pub window_seconds : ℕ
  pub interactive_concurrent : ℕ
  pub background_concurrent : ℕ
  pub reserved_tokens : ℕ
  pub daily_tokens : ℕ
  pub monthly_tokens : ℕ
  -- in 10⁻¹² units
  pub monthly_cost : ℕ

-- `EvaluationBinding.limits`
abbrev pub evaluation_limits : Limits
evaluation_limits = record {
  requests_per_window = 16;
  window_seconds = 86400;
  interactive_concurrent = 1;
  background_concurrent = 1;
  reserved_tokens = 112000;
  daily_tokens = 500000;
  monthly_tokens = 1500000;
  monthly_cost = 5000000000000;
}

-- `QuotaPolicy`, with the scopes of its evaluation binding
pub record QuotaPolicy : Type 0 where
  pub version : String
  pub owner : Limits
  pub tenant : Limits
  pub evaluation : Option (List Scope)

abbrev pub bound : Option (List Scope) → Scope → Bool
bound none scope = false
bound (some scopes) scope = any (λ s. same_scope s scope) scopes

-- `QuotaPolicy.select`: the version, the owner's limits and the tenant's
unfoldable pub select_limits : QuotaPolicy → Scope → String × Limits × Limits
select_limits q scope =
    if bound q.evaluation scope
    then ("polymind-evaluation/1", evaluation_limits, evaluation_limits)
    else (q.version, q.owner, q.tenant)

pub data Workload : Type 0 where
  interactive document_background : Workload

abbrev pub same_workload : Workload → Workload → Bool
same_workload interactive interactive = true
same_workload document_background document_background = true
same_workload _ _ = false

-- `CallIdentity` of llm/admission.py; `scope` is the identity of the scope
pub record CallIdentity : Type 0 where
  pub scope : Scope
  pub job : Uuid
  pub step : Uuid
  pub attempt : ℕ
  pub profile : String
  pub provider : String
  pub role : String
  pub model : String
  pub capability : String

-- two encodings agree exactly when the identities do
abbrev pub same_identity : CallIdentity → CallIdentity → Bool
same_identity a b =
    same_scope a.scope b.scope
    && a.job == b.job
    && a.step == b.step
    && a.attempt == b.attempt
    && str_eq a.profile b.profile
    && str_eq a.provider b.provider
    && str_eq a.role b.role
    && str_eq a.model b.model
    && str_eq a.capability b.capability

-- `identity_key`
abbrev pub same_call : CallIdentity → CallIdentity → Bool
same_call a b = a.job == b.job && a.step == b.step && a.attempt == b.attempt

-- The library functions on the calendar (UTC), and the length of the JSON text of an identity.
pub record Calendar : Type 0 where
  pub day_start : Micros → Micros
  pub month_start : Micros → Micros
  pub date : Micros → ℕ
  pub encoded_length : CallIdentity → ℕ
