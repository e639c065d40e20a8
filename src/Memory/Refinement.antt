-- ===== src/Memory/Refinement.antt =====
-- The file store of memory/memory_store.py against its contract: one bounded log for each session.
use estudio_polymind_llm_orc.Prelude.{
  ℕ, suc, zero, ◌≡◌, refl, ap, ◌∙◌, subst, String, false, Option, List, [], ◌∷◌, ◌++◌, ◌==◌, str_eq,
  str_eq_refl, eq_iff, length, drop, or_else, if◌then◌else◌, Bool-cases, inl, inr, arith,
  select-append,
}
use estudio_polymind_llm_orc.Jobs.Models.{Micros}
use estudio_polymind_llm_orc.Memory.{
  Entry, in_session, of_session, last_of, get_history, without_first, surplus, exchange,
  append_exchange, clear_session, clear_all, of_session-without_first, of_session-exchange,
  str_apart,
}

-- an operation that writes the file
pub data Write : Type 0 where
  appended : String → String → String → Micros → Micros → Write
  cleared : String → Write
  all_cleared : Write

-- the operation on the entries of the file
abbrev pub write : ℕ → Write → List Entry → List Entry
write n (appended s query answer at1 at2) es = append_exchange n s query answer at1 at2 es
write n (cleared s) es = clear_session s es
write n all_cleared es = clear_all es

abbrev pub writes : ℕ → List Write → List Entry → List Entry
writes n [] es = es
writes n (w ∷ ws) es = writes n ws (write n w es)

-- a log keeps its last entries; the limit 0 keeps all
abbrev pub bounded : ℕ → List Entry → List Entry
bounded zero log = log
bounded (suc n) log = last_of (suc n) log

-- the operation on the log of the session `t`
abbrev pub logged : ℕ → String → Write → List Entry → List Entry
logged n t (appended s query answer at1 at2) log =
    if str_eq s t then bounded n (log ++ exchange s query answer at1 at2) else log
logged n t (cleared s) log = if str_eq s t then [] else log
logged n t all_cleared log = []

abbrev pub log_of : ℕ → String → List Write → List Entry → List Entry
log_of n t [] log = log
log_of n t (w ∷ ws) log = log_of n t ws (logged n t w log)

drop-without_first :
    (k : ℕ) (s : String) (es : List Entry)
    → of_session s (without_first k s es) ≡ drop k (of_session s es)
unfolding without_first
drop-without_first zero s es = refl
drop-without_first (suc k) s [] = refl
drop-without_first (suc k) s (e ∷ es) = elim (Bool-cases (in_session s e)) [
  | inl c ↦ rw c (drop-without_first k s es)
  | inr c ↦ rw c (rw c (drop-without_first (suc k) s es))
]

own_exchange :
    (s query answer : String) (at1 at2 : Micros) (es : List Entry)
    → of_session s (es ++ exchange s query answer at1 at2)
      ≡ of_session s es ++ exchange s query answer at1 at2
own_exchange s query answer at1 at2 es =
    select-append (in_session s) es (exchange s query answer at1 at2)
    ∙ ap (λ xs. of_session s es ++ xs) (rw (str_eq_refl s) refl)

surplus-bounded : (n : ℕ) (log : List Entry) → drop (surplus n (length log)) log ≡ bounded n log
surplus-bounded zero log = refl
surplus-bounded (suc n) log = refl

append-own :
    (n : ℕ) (s query answer : String) (at1 at2 : Micros) (es : List Entry)
    → of_session s (append_exchange n s query answer at1 at2 es)
      ≡ bounded n (of_session s es ++ exchange s query answer at1 at2)
unfolding append_exchange
append-own n s query answer at1 at2 es =
    let all = es ++ exchange s query answer at1 at2 in
    drop-without_first (surplus n (length (of_session s all))) s all
    ∙ surplus-bounded n (of_session s all)
    ∙ ap (bounded n) (own_exchange s query answer at1 at2 es)

append-other :
    (n : ℕ) (s t query answer : String) (at1 at2 : Micros) (es : List Entry)
    → str_eq s t ≡ false
    → of_session t (append_exchange n s query answer at1 at2 es) ≡ of_session t es
unfolding append_exchange
append-other n s t query answer at1 at2 es h =
    let all = es ++ exchange s query answer at1 at2 in
    of_session-without_first (surplus n (length (of_session s all))) s t all
      (λ e m. str_apart s t e.session_id h m)
    ∙ of_session-exchange s t query answer at1 at2 es h

clear-own : (s : String) (es : List Entry) → of_session s (clear_session s es) ≡ []
clear-own s [] = refl
clear-own s (e ∷ es) = ground (arith, clear-own s es)

clear-other :
    (s t : String) (es : List Entry)
    → str_eq s t ≡ false
    → of_session t (clear_session s es) ≡ of_session t es
clear-other s t [] h = refl
clear-other s t (e ∷ es) h = elim (Bool-cases (in_session s e)) [
  | inl c ↦ rw (c, str_apart s t e.session_id h c) (clear-other s t es h)
  | inr c ↦ rw c (ground (arith, clear-other s t es h))
]

write-logged :
    (n : ℕ) (t : String) (w : Write) (es : List Entry)
    → of_session t (write n w es) ≡ logged n t w (of_session t es)
write-logged n t (appended s query answer at1 at2) es = elim (Bool-cases (str_eq s t)) [
  | inl c ↦
      let same : s ≡ t = (eq_iff s t).0 c in
      rw c (
        subst
          (λ x.
            of_session x (append_exchange n s query answer at1 at2 es)
            ≡ bounded n (of_session x es ++ exchange s query answer at1 at2))
          same (append-own n s query answer at1 at2 es))
  | inr c ↦ rw c (append-other n s t query answer at1 at2 es c)
]
write-logged n t (cleared s) es = elim (Bool-cases (str_eq s t)) [
  | inl c ↦
      rw c (subst (λ x. of_session x (clear_session s es) ≡ []) ((eq_iff s t).0 c) (clear-own s es))
  | inr c ↦ rw c (clear-other s t es c)
]
write-logged n t all_cleared es = refl

writes-log_of :
    (n : ℕ) (t : String) (ws : List Write) (es : List Entry)
    → of_session t (writes n ws es) ≡ log_of n t ws (of_session t es)
writes-log_of n t [] es = refl
writes-log_of n t (w ∷ ws) es =
    writes-log_of n t ws (write n w es) ∙ ap (log_of n t ws) (write-logged n t w es)

-- the answer of `get_history` on a log
abbrev pub answer_of : ℕ → Option ℕ → List Entry → List Entry
answer_of n limit log = let m = or_else limit n in if m == 0 then [] else last_of m log

-- The store refines its contract: after any sequence of exchanges and clearings, `get_history` answers
-- for every session and every limit from a log of that session alone, to which its exchanges were
-- appended with the last history_limit entries kept, and which its clearings have emptied.
pub get_history-log_of :
    (n : ℕ) (t : String) (limit : Option ℕ) (ws : List Write)
    → get_history n t limit (writes n ws []) ≡ answer_of n limit (log_of n t ws [])
unfolding get_history
get_history-log_of n t limit ws = ap (answer_of n limit) (writes-log_of n t ws [])
