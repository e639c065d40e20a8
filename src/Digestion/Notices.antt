-- ===== src/Digestion/Notices.antt =====
-- The fixed texts of `make_digest` (documents/digestion/validation.py), as code points.
use estudio_polymind_llm_orc.Prelude.{[], ◌∷◌}
use estudio_polymind_llm_orc.Documents.Models.{Text}

-- No supported root findings are available.
abbrev pub no_findings : Text
no_findings =
    78 ∷ 111 ∷ 32 ∷ 115 ∷ 117 ∷ 112 ∷ 112 ∷ 111 ∷ 114 ∷ 116 ∷ 101 ∷ 100 ∷ 32 ∷ 114 ∷ 111 ∷ 111 ∷ 116
    ∷ 32 ∷ 102 ∷ 105 ∷ 110 ∷ 100 ∷ 105 ∷ 110 ∷ 103 ∷ 115 ∷ 32 ∷ 97 ∷ 114 ∷ 101 ∷ 32 ∷ 97 ∷ 118 ∷ 97
    ∷ 105 ∷ 108 ∷ 97 ∷ 98 ∷ 108 ∷ 101 ∷ 46 ∷ []

-- Incomplete source coverage; this digest is not complete publishable knowledge.
abbrev pub incomplete : Text
incomplete =
    73 ∷ 110 ∷ 99 ∷ 111 ∷ 109 ∷ 112 ∷ 108 ∷ 101 ∷ 116 ∷ 101 ∷ 32 ∷ 115 ∷ 111 ∷ 117 ∷ 114 ∷ 99 ∷ 101
    ∷ 32 ∷ 99 ∷ 111 ∷ 118 ∷ 101 ∷ 114 ∷ 97 ∷ 103 ∷ 101 ∷ 59 ∷ 32 ∷ 116 ∷ 104 ∷ 105 ∷ 115 ∷ 32 ∷ 100
    ∷ 105 ∷ 103 ∷ 101 ∷ 115 ∷ 116 ∷ 32 ∷ 105 ∷ 115 ∷ 32 ∷ 110 ∷ 111 ∷ 116 ∷ 32 ∷ 99 ∷ 111 ∷ 109
    ∷ 112 ∷ 108 ∷ 101 ∷ 116 ∷ 101 ∷ 32 ∷ 112 ∷ 117 ∷ 98 ∷ 108 ∷ 105 ∷ 115 ∷ 104 ∷ 97 ∷ 98 ∷ 108
    ∷ 101 ∷ 32 ∷ 107 ∷ 110 ∷ 111 ∷ 119 ∷ 108 ∷ 101 ∷ 100 ∷ 103 ∷ 101 ∷ 46 ∷ []

-- Content unavailable for unsupported or unextractable source units.
abbrev pub unavailable_content : Text
unavailable_content =
    67 ∷ 111 ∷ 110 ∷ 116 ∷ 101 ∷ 110 ∷ 116 ∷ 32 ∷ 117 ∷ 110 ∷ 97 ∷ 118 ∷ 97 ∷ 105 ∷ 108 ∷ 97 ∷ 98
    ∷ 108 ∷ 101 ∷ 32 ∷ 102 ∷ 111 ∷ 114 ∷ 32 ∷ 117 ∷ 110 ∷ 115 ∷ 117 ∷ 112 ∷ 112 ∷ 111 ∷ 114 ∷ 116
    ∷ 101 ∷ 100 ∷ 32 ∷ 111 ∷ 114 ∷ 32 ∷ 117 ∷ 110 ∷ 101 ∷ 120 ∷ 116 ∷ 114 ∷ 97 ∷ 99 ∷ 116 ∷ 97 ∷ 98
    ∷ 108 ∷ 101 ∷ 32 ∷ 115 ∷ 111 ∷ 117 ∷ 114 ∷ 99 ∷ 101 ∷ 32 ∷ 117 ∷ 110 ∷ 105 ∷ 116 ∷ 115 ∷ 46 ∷ []

-- Conflicting source propositions remain unresolved.
abbrev pub conflicting : Text
conflicting =
    67 ∷ 111 ∷ 110 ∷ 102 ∷ 108 ∷ 105 ∷ 99 ∷ 116 ∷ 105 ∷ 110 ∷ 103 ∷ 32 ∷ 115 ∷ 111 ∷ 117 ∷ 114 ∷ 99
    ∷ 101 ∷ 32 ∷ 112 ∷ 114 ∷ 111 ∷ 112 ∷ 111 ∷ 115 ∷ 105 ∷ 116 ∷ 105 ∷ 111 ∷ 110 ∷ 115 ∷ 32 ∷ 114
    ∷ 101 ∷ 109 ∷ 97 ∷ 105 ∷ 110 ∷ 32 ∷ 117 ∷ 110 ∷ 114 ∷ 101 ∷ 115 ∷ 111 ∷ 108 ∷ 118 ∷ 101 ∷ 100
    ∷ 46 ∷ []
