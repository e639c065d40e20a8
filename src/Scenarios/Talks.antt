-- ===== src/Scenarios/Talks.antt =====
-- Two conversations in one file.
use estudio_polymind_llm_orc.Prelude.{◌≡◌, refl, none, List, [], ◌∷◌}
use estudio_polymind_llm_orc.Memory.{
  Entry, user, append_exchange, get_history, append_exchange-other,
}
use estudio_polymind_llm_orc.Memory.Refinement.{
  Write, appended, cleared, writes, log_of, answer_of, get_history-log_of,
}

abbrev one_entry : List Entry
one_entry = record { session_id = "b"; role = user; content = "hello"; timestamp = 1 } ∷ []

append_exchange-other_example :
    get_history 2 "b" none (append_exchange 2 "a" "question" "answer" 5 6 one_entry)
    ≡ get_history 2 "b" none one_entry
append_exchange-other_example =
    append_exchange-other 2 "a" "b" "question" "answer" 5 6 one_entry none refl

-- two exchanges in one conversation, one in another, which is then cleared
abbrev some_writes : List Write
some_writes =
    appended "a" "question" "answer" 1 2
    ∷ appended "b" "hello" "hi" 3 4
    ∷ appended "a" "more" "yes" 5 6
    ∷ cleared "b"
    ∷ []

get_history-log_of_example :
    get_history 2 "a" none (writes 2 some_writes [])
    ≡ answer_of 2 none (log_of 2 "a" some_writes [])
get_history-log_of_example = get_history-log_of 2 "a" none some_writes
