-- ===== src/Digestion/Sets.antt =====
-- Sets of ids as lists: `in`, `<=` and `==` of Python's sets.
use estudio_polymind_llm_orc.Prelude.{Bool, true, not, ◌&&◌, List, [], ◌∷◌, ◌==◌, any, all}
use estudio_polymind_llm_orc.Jobs.Models.{Uuid}

abbrev pub has : List Uuid → Uuid → Bool
has ids k = any (λ e. e == k) ids

-- set(xs) <= set(ys)
abbrev pub within : List Uuid → List Uuid → Bool
within xs ys = all (has ys) xs

-- set(xs) == set(ys)
abbrev pub same_set : List Uuid → List Uuid → Bool
same_set xs ys = within xs ys && within ys xs

-- len(set(xs)) == len(xs)
abbrev pub distinct : List Uuid → Bool
distinct [] = true
distinct (x ∷ xs) = not (has xs x) && distinct xs

-- a pair of ids, as a key of a dictionary
abbrev pub Key : Type 0
Key = Uuid × Uuid

abbrev pub same_key : Key → Key → Bool
same_key (a, b) (c, d) = a == c && b == d

abbrev pub has_key : List Key → Key → Bool
has_key ks k = any (λ e. same_key e k) ks

abbrev pub keys_within : List Key → List Key → Bool
keys_within xs ys = all (has_key ys) xs

abbrev pub distinct_keys : List Key → Bool
distinct_keys [] = true
distinct_keys (x ∷ xs) = not (has_key xs x) && distinct_keys xs
