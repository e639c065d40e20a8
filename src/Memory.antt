-- ===== src/Memory.antt =====
-- memory/memory_store.py: the file store of conversations, on the list of entries that the file holds
-- (`get_history`, `append_exchange`, `clear_session` and `clear_all`). Reading and writing the file
-- itself is left out.
pub mod Refinement
use estudio_polymind_llm_orc.Prelude.{
  ℕ, suc, zero, ◌-◌, ◌≡◌, refl, String, Bool, true, false, not, Option, List, [], ◌∷◌, ◌++◌, ◌==◌,
  str_eq, eq_iff, length, select, drop, or_else, if◌then◌else◌, Bool-cases, inl, inr, arith,
}
use estudio_polymind_llm_orc.Jobs.Models.{Micros}

pub data Role : Type 0 where
  user assistant : Role

-- an entry of the file: `_message` with its session
pub record Entry : Type 0 where
  pub session_id : String
  pub role : Role
  pub content : String
  pub timestamp : Micros

abbrev pub in_session : String → Entry → Bool
in_session s e = str_eq e.session_id s

abbrev pub of_session : String → List Entry → List Entry
of_session s = select (in_session s)

-- history[-n:], for a positive n
abbrev pub last_of : ℕ → List Entry → List Entry
last_of n es = drop (length es - n) es

-- `get_history`
unfoldable pub get_history : ℕ → String → Option ℕ → List Entry → List Entry
get_history history_limit s limit entries =
    let n = or_else limit history_limit in if n == 0 then [] else last_of n (of_session s entries)

-- the entries without the first `k` of a session
unfoldable pub without_first : ℕ → String → List Entry → List Entry
without_first zero s es = es
without_first (suc k) s [] = []
without_first (suc k) s (e ∷ es) =
    let fewer = without_first k s es in
    let same = without_first (suc k) s es in if in_session s e then fewer else e ∷ same

-- the length of `indexes[:-history_limit]`, where -0 is 0
abbrev pub surplus : ℕ → ℕ → ℕ
surplus zero n = 0
surplus (suc l) n = n - suc l

-- the two entries of an exchange
abbrev pub exchange : String → String → String → Micros → Micros → List Entry
exchange s query answer at1 at2 =
    record { session_id = s; role = user; content = query; timestamp = at1 }
    ∷ record { session_id = s; role = assistant; content = answer; timestamp = at2 }
    ∷ []

-- `append_exchange`
unfoldable pub append_exchange :
    ℕ → String → String → String → Micros → Micros → List Entry → List Entry
unfolding without_first
append_exchange history_limit s query answer at1 at2 entries =
    let all = entries ++ exchange s query answer at1 at2 in
    without_first (surplus history_limit (length (of_session s all))) s all

-- `clear_session`
abbrev pub clear_session : String → List Entry → List Entry
clear_session s = select (λ e. not (in_session s e))

-- `clear_all`
abbrev pub clear_all : List Entry → List Entry
clear_all entries = []

pub of_session-without_first :
    (k : ℕ) (s t : String) (es : List Entry)
    → ((e : Entry) → in_session s e ≡ true → in_session t e ≡ false)
    → of_session t (without_first k s es) ≡ of_session t es
unfolding without_first
of_session-without_first zero s t es h = refl
of_session-without_first (suc k) s t [] h = refl
of_session-without_first (suc k) s t (e ∷ es) h = elim (Bool-cases (in_session s e)) [
  | inl c ↦ rw c (rw (h e c) (of_session-without_first k s t es h))
  | inr c ↦ rw c (ground (arith, of_session-without_first (suc k) s t es h))
]

pub str_apart : (s t x : String) → str_eq s t ≡ false → str_eq x s ≡ true → str_eq x t ≡ false
str_apart s t x h m = rw ((eq_iff x s).0 m) h

pub of_session-exchange :
    (s t query answer : String) (at1 at2 : Micros) (entries : List Entry)
    → str_eq s t ≡ false
    → of_session t (entries ++ exchange s query answer at1 at2) ≡ of_session t entries
of_session-exchange s t query answer at1 at2 [] h = rw h refl
of_session-exchange s t query answer at1 at2 (e ∷ es) h =
    ground (arith, of_session-exchange s t query answer at1 at2 es h)

-- An exchange appended to one session leaves the history of every other session as it was, for every
-- limit, the entries that the limit removes included.
pub append_exchange-other :
    (history_limit : ℕ) (s t query answer : String) (at1 at2 : Micros) (entries : List Entry)
    (limit : Option ℕ)
    → str_eq s t ≡ false
    → get_history history_limit t limit
        (append_exchange history_limit s query answer at1 at2 entries)
      ≡ get_history history_limit t limit entries
unfolding get_history append_exchange
append_exchange-other history_limit s t query answer at1 at2 entries limit h =
    rw
      (of_session-without_first
        (surplus history_limit (length (of_session s (entries ++ exchange s query answer at1 at2))))
        s t (entries ++ exchange s query answer at1 at2) (λ e m. str_apart s t e.session_id h m))
      (rw (of_session-exchange s t query answer at1 at2 entries h) refl)
