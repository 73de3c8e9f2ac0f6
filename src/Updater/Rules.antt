-- ===== src/Updater/Rules.antt =====
-- The rules for what code does whatever its effects meet.
use rocket_cat_shell_linux.Base.{◌≡◌, refl, List, [], ◌∷◌, Option}
use rocket_cat_shell_linux.Updater.{
  Node, Installation, Fate, passes, raises, is_killed, Ending, returned, raised, killed, Act, pure,
  throw, look, effect, proceed, ◌>>=◌, caught, attempt,
}

-- The code returns and then `Q` holds, or it is cut off and then `E` holds; with no fates left at the
-- beginning it is cut off only if `N`.
abbrev pub Ends :
    {A : Type 0}
    → Type 0
    → (A → Installation → Type 0)
    → (Installation → Type 0)
    → List Fate
    → Ending A × Installation × List Fate
    → Type 0
Ends N Q E l (returned v, s, rest) = Q v s × (l ≡ [] → rest ≡ [])
Ends N Q E l (raised, s, rest) = E s × (l ≡ [] → N × (rest ≡ []))
Ends N Q E l (killed, s, rest) = E s × (l ≡ [] → N × (rest ≡ []))

pub record Does {A : Type 0} (N : Type 0) (P : Installation → Type 0) (m : Act A)
    (Q : A → Installation → Type 0) (E : Installation → Type 0) : Type 0 where
  pub runs : (l : List Fate) (s : Installation) → P s → Ends N Q E l (m l s)

pub pure-Does :
    {N : Type 0} {P E : Installation → Type 0} {A : Type 0} {Q : A → Installation → Type 0} (v : A)
    → ((s : Installation) → P s → Q v s)
    → Does N P (pure v) Q E
unfolding pure
pure-Does v h = record { runs = λ l s p. (h s p, λ e. e) }

pub throw-Does :
    {N : Type 0} {P E : Installation → Type 0} {A : Type 0} {Q : A → Installation → Type 0}
    → ((s : Installation) → P s → E s × N)
    → Does N P (throw {A = A}) Q E
unfolding throw
throw-Does h = record { runs = λ l s p. ((h s p).0, λ e. ((h s p).1, e)) }

pub look-Does :
    {N : Type 0} {P E : Installation → Type 0} {A : Type 0} {Q : A → Installation → Type 0}
    (f : Installation → A)
    → ((s : Installation) → P s → Q (f s) s)
    → Does N P (look f) Q E
unfolding look
look-Does f h = record { runs = λ l s p. (h s p, λ e. e) }

effect-Ends :
    (N : Type 0) (P E : Installation → Type 0) (Q : Unit → Installation → Type 0)
    (cut : Option Node → Installation → Installation) (f : Installation → Installation)
    → ((s : Installation) → P s → Q tt (f s))
    → ((s : Installation) (node : Option Node) → P s → E (cut node s))
    → (l : List Fate) (s : Installation) → P s
    → Ends N Q E l (effect cut f l s)
unfolding effect
effect-Ends N P E Q cut f h k [] s p = (h s p, λ e. refl)
effect-Ends N P E Q cut f h k (passes ∷ l) s p = (h s p, λ e. absurd cc)
effect-Ends N P E Q cut f h k (raises node ∷ l) s p = (k s node p, λ e. absurd cc)
effect-Ends N P E Q cut f h k (is_killed node ∷ l) s p = (k s node p, λ e. absurd cc)

pub effect-Does :
    {N : Type 0} {P E : Installation → Type 0} {Q : Unit → Installation → Type 0}
    (cut : Option Node → Installation → Installation) (f : Installation → Installation)
    → ((s : Installation) → P s → Q tt (f s))
    → ((s : Installation) (node : Option Node) → P s → E (cut node s))
    → Does N P (effect cut f) Q E
effect-Does cut f h k = record { runs = λ l s p. effect-Ends _ _ _ _ cut f h k l s p }

-- What runs after a beginning that left no fates where there were none.
later :
    (N A : Type 0) (Q : A → Installation → Type 0) (E : Installation → Type 0) (l l1 : List Fate)
    → (l ≡ [] → l1 ≡ [])
    → (r : Ending A × Installation × List Fate) → Ends N Q E l1 r
    → Ends N Q E l r
later N A Q E l l1 e (returned w, u, l2) d = (d.0, λ c. d.1 (e c))
later N A Q E l l1 e (raised, u, l2) d = (d.0, λ c. d.1 (e c))
later N A Q E l l1 e (killed, u, l2) d = (d.0, λ c. d.1 (e c))

module _ (N : Type 0) (E : Installation → Type 0) where
  proceed-Ends :
      (A B : Type 0) (R : A → Installation → Type 0) (Q : B → Installation → Type 0)
      (rest : A → Act B)
      → ((v : A) → Does N (R v) (rest v) Q E)
      → (l : List Fate) (r : Ending A × Installation × List Fate) → Ends N R E l r
      → Ends N Q E l (proceed rest r)
  proceed-Ends A B R Q rest k l (returned v, t, l1) e =
      later N B Q E l l1 e.1 (rest v l1 t) ((k v).runs l1 t e.0)
  proceed-Ends A B R Q rest k l (raised, t, l1) e = e
  proceed-Ends A B R Q rest k l (killed, t, l1) e = e

  caught-Ends :
      (A : Type 0) (Q : A → Installation → Type 0) (D : Installation → Type 0) (handler : Act A)
      → ((s : Installation) → D s → E s)
      → Does N D handler Q E
      → (l : List Fate) (r : Ending A × Installation × List Fate) → Ends N Q D l r
      → Ends N Q E l (caught handler r)
  caught-Ends A Q D handler weak k l (returned v, t, l1) e = e
  caught-Ends A Q D handler weak k l (killed, t, l1) e = (weak t e.0, e.1)
  caught-Ends A Q D handler weak k l (raised, t, l1) e =
      later N A Q E l l1 (λ c. (e.1 c).1) (handler l1 t) (k.runs l1 t e.0)

  bind-Ends :
      (A B : Type 0) (P : Installation → Type 0) (R : A → Installation → Type 0)
      (Q : B → Installation → Type 0) (m : Act A) (rest : A → Act B)
      → Does N P m R E
      → ((v : A) → Does N (R v) (rest v) Q E)
      → (l : List Fate) (s : Installation) → P s
      → Ends N Q E l ((m >>= rest) l s)
  unfolding ◌>>=◌
  bind-Ends A B P R Q m rest h k l s p = proceed-Ends A B R Q rest k l (m l s) (h.runs l s p)

  attempt-Ends :
      (A : Type 0) (P : Installation → Type 0) (Q : A → Installation → Type 0)
      (D : Installation → Type 0) (m handler : Act A)
      → ((s : Installation) → D s → E s)
      → Does N P m Q D
      → Does N D handler Q E
      → (l : List Fate) (s : Installation) → P s
      → Ends N Q E l (attempt m handler l s)
  unfolding attempt
  attempt-Ends A P Q D m handler weak h k l s p =
      caught-Ends A Q D handler weak k l (m l s) (h.runs l s p)

pub bind-Does :
    {N : Type 0} {P E : Installation → Type 0} {A B : Type 0} {R : A → Installation → Type 0}
    {Q : B → Installation → Type 0} {m : Act A} {rest : A → Act B}
    → Does N P m R E
    → ((v : A) → Does N (R v) (rest v) Q E)
    → Does N P (m >>= rest) Q E
bind-Does h k = record { runs = bind-Ends _ _ _ _ _ _ _ _ _ h k }

-- What is raised is handled, whatever state it leaves.
pub attempt-Does :
    {N : Type 0} {P E : Installation → Type 0} {A : Type 0} {Q : A → Installation → Type 0}
    {m handler : Act A} (D : Installation → Type 0)
    → ((s : Installation) → D s → E s)
    → Does N P m Q D
    → Does N D handler Q E
    → Does N P (attempt m handler) Q E
attempt-Does D weak h k = record { runs = attempt-Ends _ _ _ _ _ D _ _ weak h k }

weaken-Ends :
    (N N' A : Type 0) (Q Q' : A → Installation → Type 0) (E E' : Installation → Type 0)
    → (N → N')
    → ((v : A) (s : Installation) → Q v s → Q' v s)
    → ((s : Installation) → E s → E' s)
    → (l : List Fate) (r : Ending A × Installation × List Fate) → Ends N Q E l r
    → Ends N' Q' E' l r
weaken-Ends N N' A Q Q' E E' n b c l (returned v, t, l1) e = (b v t e.0, e.1)
weaken-Ends N N' A Q Q' E E' n b c l (raised, t, l1) e = (c t e.0, λ d. (n (e.1 d).0, (e.1 d).1))
weaken-Ends N N' A Q Q' E E' n b c l (killed, t, l1) e = (c t e.0, λ d. (n (e.1 d).0, (e.1 d).1))

pub weaken-Does :
    {N N' : Type 0} {A : Type 0} {P P' : Installation → Type 0} {Q Q' : A → Installation → Type 0}
    {E E' : Installation → Type 0} {m : Act A}
    → (N → N')
    → ((s : Installation) → P' s → P s)
    → ((v : A) (s : Installation) → Q v s → Q' v s)
    → ((s : Installation) → E s → E' s)
    → Does N P m Q E
    → Does N' P' m Q' E'
weaken-Does {m = m} n a b c h = record {
  runs = λ l s p. weaken-Ends _ _ _ _ _ _ _ n b c l (m l s) (h.runs l s (a s p));
}

-- What holds of the values alone is at hand for the proof.
pub given-Does :
    {N : Type 0} {A : Type 0} {C : Type 0} {P : Installation → Type 0}
    {Q : A → Installation → Type 0} {E : Installation → Type 0} {m : Act A}
    → (C → Does N P m Q E)
    → Does N (λ s. P s × C) m Q E
given-Does h = record { runs = λ l s p. (h p.1).runs l s p.0 }

pub exists-Does :
    {N : Type 0} {A : Type 0} {C : Type 0} {P : C → Installation → Type 0}
    {Q : A → Installation → Type 0} {E : Installation → Type 0} {m : Act A}
    → ((c : C) → Does N (P c) m Q E)
    → Does N (λ s. (c : C) × P c s) m Q E
exists-Does h = record { runs = λ l s p. (h p.0).runs l s p.1 }

-- Code that nothing disturbs, and that then never raises, returns.
abbrev pub Returns :
    {A : Type 0} → (A → Installation → Type 0) → Ending A × Installation × List Fate → Type 0
Returns Q (returned v, s, rest) = Q v s × (rest ≡ [])
Returns Q (raised, s, rest) = ⊥
Returns Q (killed, s, rest) = ⊥

pub undisturbed :
    {A : Type 0} {P : Installation → Type 0} {Q : A → Installation → Type 0}
    {E : Installation → Type 0} {m : Act A} (s : Installation)
    → Does ⊥ P m Q E
    → P s
    → Returns Q (m [] s)
undisturbed {A = A} {Q = Q} {E = E} {m = m} s h p = go (m [] s) (h.runs [] s p)
  where
    go : (r : Ending A × Installation × List Fate) → Ends ⊥ Q E [] r → Returns Q r
    go (returned v, t, rest) e = (e.0, e.1 refl)
    go (raised, t, rest) e = absurd (e.1 refl).0
    go (killed, t, rest) e = absurd (e.1 refl).0
