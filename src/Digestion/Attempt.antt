-- ===== src/Digestion/Attempt.antt =====
-- What a computation of documents/digestion/ comes to: a value, a `DigestionError` of a category, another
-- exception (`crashes`: a key that a dictionary does not have), or the end of its fuel.
use estudio_polymind_llm_orc.Prelude.{Bool, true, false, ◌≡◌, refl, arith}
use estudio_polymind_llm_orc.Digestion.Models.{Category}

pub data Attempt {ℓ} (A : Type ℓ) : Type ℓ where
  returns : A → Attempt A
  raises : Category → Attempt A
  crashes exhausted : Attempt A

infixl 5 ◌>>=◌
abbrev pub ◌>>=◌ : {A B : Type 0} → Attempt A → (A → Attempt B) → Attempt B
returns a >>= f = f a
raises e >>= f = raises e
crashes >>= f = crashes
exhausted >>= f = exhausted

-- `if not test: raise DigestionError(category)`
abbrev pub unless : {A : Type 0} → Bool → Category → Attempt A → Attempt A
unless true e rest = rest
unless false e rest = raises e

pub unless_inv :
    {A : Type 0} (b : Bool) (e : Category) (m : Attempt A) {a : A}
    → unless b e m ≡ returns a
    → (b ≡ true) × (m ≡ returns a)
unless_inv b e m h = ground arith

pub >>=_inv :
    {A B : Type 0} (m : Attempt A) (f : A → Attempt B) {b : B}
    → (m >>= f) ≡ returns b
    → (a : A) × (m ≡ returns a) × (f a ≡ returns b)
>>=_inv (returns a) f h = (a, refl, h)
>>=_inv (raises e) f h = cc
>>=_inv crashes f h = cc
>>=_inv exhausted f h = cc
