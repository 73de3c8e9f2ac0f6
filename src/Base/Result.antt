-- ===== src/Base/Result.antt =====
-- The outcome of code that may raise: a value, or the exception.
use mathlib.Core.Path.{◌≡◌, refl, ap, ◌∙◌}

pub data Result (E A : Type 0) : Type 0 where
  raise : E → Result E A
  ok : A → Result E A

-- The rest of a block runs only when nothing was raised.
infixl 5 ◌>>=◌
abbrev pub ◌>>=◌ : {E A B : Type 0} → Result E A → (A → Result E B) → Result E B
◌>>=◌ (raise x) rest = raise x
◌>>=◌ (ok v) rest = rest v

-- What a block that succeeded went through.
pub bind-eq-ok :
    {E A B : Type 0} (first : Result E A) (rest : A → Result E B) {w : B}
    → ◌>>=◌ first rest ≡ ok w
    → (v : A) × (first ≡ ok v) × (rest v ≡ ok w)
bind-eq-ok (raise x) rest p = cc
bind-eq-ok (ok v) rest p = (v, refl, p)

pub bind-ok :
    {E A B : Type 0} {first : Result E A} (rest : A → Result E B) {v : A} {w : Result E B}
    → first ≡ ok v
    → rest v ≡ w
    → ◌>>=◌ first rest ≡ w
bind-ok rest p q = ap (λ r. ◌>>=◌ r rest) p ∙ q

pub bind-raise :
    {E A B : Type 0} {first : Result E A} (rest : A → Result E B) {e : E}
    → first ≡ raise e
    → ◌>>=◌ first rest ≡ raise e
bind-raise rest p = ap (λ r. ◌>>=◌ r rest) p

pub ok-injective : {E A : Type 0} {v w : A} → Path (Result E A) (ok v) (ok w) → v ≡ w
ok-injective p = cc
