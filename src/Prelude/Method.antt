-- ===== src/Prelude/Method.antt =====
-- Methods that change a state and can fail: the state is kept on an error, as in the source.
use mathlib.Core.Path.{◌≡◌, refl}
use mathlib.Core.List.{List, [], ◌∷◌}
use mathlib.Core.Option.{Option, some}
use futureq_v.Prelude.Result.{Result, ok, err, panic}

abbrev pub M : Type 0 → Type 0 → Type 0
M S A = S → S × Result A

abbrev pub continue : {S A B : Type 0} → S × Result A → (A → S → S × Result B) → S × Result B
continue (s, ok a) f = f a s
continue (s, err e) f = (s, err e)
continue (s, panic) f = (s, panic)

infixl 5 ◌>>=◌ ◌>>◌
abbrev pub ◌>>=◌ : {S A B : Type 0} → M S A → (A → M S B) → M S B
◌>>=◌ m f s = continue (m s) f

abbrev pub ◌>>◌ : {S B : Type 0} → M S (Unit {0}) → M S B → M S B
◌>>◌ m k s = continue (m s) (λ _. k)

abbrev pub pure : {S A : Type 0} → A → M S A
pure a s = (s, ok a)

-- A computation that does not touch the state.
abbrev pub lift : {S A : Type 0} → Result A → M S A
lift r s = (s, r)

-- `for _, x := range xs { if err := body(x); err != nil { return err } }`
abbrev pub for_each : {S A : Type 0} → (A → M S (Unit {0})) → List A → M S (Unit {0})
for_each body [] s = (s, ok tt)
for_each body (x ∷ xs) s = continue (body x s) (λ _. for_each body xs)

-- Inversion of a method that succeeds: its first part does, and then the rest.
pub continue-eq_ok :
    {S A B : Type 0} (r : S × Result A) (f : A → S → S × Result B) {s' : S} {b : B}
    → continue r f ≡ (s', ok b)
    → (s1 : S) × (a : A) × (r ≡ (s1, ok a)) × (f a s1 ≡ (s', ok b))
continue-eq_ok (s1, ok a) f h = (s1, a, refl, h)
continue-eq_ok (s1, err e) f h = cc
continue-eq_ok (s1, panic) f h = cc

continue_keeps :
    {S : Type 0} (P Q : S → Type 0) (r : S × Result (Unit {0})) (f : M S (Unit {0}))
    → ((s : S) → P s → Q (f s).0)
    → ((s : S) → P s → Q s)
    → P r.0
    → Q (continue r (λ _. f)).0
continue_keeps P Q (s, ok u) f go stop h = go s h
continue_keeps P Q (s, err e) f go stop h = stop s h
continue_keeps P Q (s, panic) f go stop h = stop s h

-- What holds before each turn of a loop, of the state and the elements that are left, shows what
-- holds of the state in which the loop ends, be it at the end of the list or at a failure.
pub for_each_keeps :
    {S A : Type 0} (body : A → M S (Unit {0})) (I : List A → S → Type 0) (Q : S → Type 0)
    → ((x : A) (xs : List A) (s : S) → I (x ∷ xs) s → I xs (body x s).0)
    → ((xs : List A) (s : S) → I xs s → Q s)
    → (xs : List A) (s : S) → I xs s
    → Q (for_each body xs s).0
for_each_keeps body I Q step last [] s h = last [] s h
for_each_keeps body I Q step last (x ∷ xs) s h =
    continue_keeps (I xs) Q (body x s) (for_each body xs)
      (λ s1. for_each_keeps body I Q step last xs s1) (last xs) (step x xs s h)

-- Two methods that agree from the first step's end on agree as a whole.
pub continue_cong :
    {S A B : Type 0} (r : S × Result A) (f g : A → S → S × Result B)
    → ((a : A) (s : S) → f a s ≡ g a s)
    → continue r f ≡ continue r g
continue_cong (s, ok a) f g h = h a s
continue_cong (s, err e) f g h = refl
continue_cong (s, panic) f g h = refl

pub continue_assoc :
    {S A B C : Type 0} (r : S × Result A) (f : A → S → S × Result B) (g : B → S → S × Result C)
    → continue (continue r f) g ≡ continue r (λ a s. continue (f a s) g)
continue_assoc (s, ok a) f g = refl
continue_assoc (s, err e) f g = refl
continue_assoc (s, panic) f g = refl

-- What a first step leaves true and the next step keeps.
pub continue_state :
    {S A B : Type 0} (P : S → Type 0) (r : S × Result A) (f : A → S → S × Result B)
    → P r.0
    → ((a : A) (s : S) → P s → P (f a s).0)
    → P (continue r f).0
continue_state P (s, ok a) f h next = next a s h
continue_state P (s, err e) f h next = h
continue_state P (s, panic) f h next = h

-- One turn of a loop on fuel: what `yield` returns, and the turns after it.
abbrev pub after_yield :
    {S : Type 0}
    → S × Result (Unit {0})
    → (S → Option (S × Result (Unit {0})))
    → Option (S × Result (Unit {0}))
after_yield (s, ok _) rest = rest s
after_yield (s, err x) rest = some (s, err x)
after_yield (s, panic) rest = some (s, panic)

pub after_yield-continue :
    {S : Type 0} (r : S × Result (Unit {0})) (f : S → Option (S × Result (Unit {0})))
    (g : M S (Unit {0}))
    → ((s : S) → f s ≡ some (g s))
    → after_yield r f ≡ some (continue r (λ _. g))
after_yield-continue (s, ok u) f g h = h s
after_yield-continue (s, err x) f g h = refl
after_yield-continue (s, panic) f g h = refl
