-- ===== src/Decoding/StrictJson/Agree.antt =====
-- Two readings of the same bytes, the first of them under a budget: rules that follow the code.
use cuac.Common.{
  ℕ, zero, suc, ◌+◌, ◌-◌, ◌≤◌, ◌≡◌, ◌⊎◌, inl, inr, refl, Bool, true, false, ◌||◌, Option, none,
  some, List, length, ltb, if◌then◌else◌, arith, Bool-cases, subst,
}
use cuac.Decoding.StrictJson.Reader.{
  Reader, malformed, over_budget, Failure, Result, ok, err, M, bind_result, ◌>>=◌, ◌>>◌, pure, fail,
  Turn, closed, more, again, turns, loop,
}
use cuac.Decoding.StrictJson.Strings.{require_append}

abbrev Fails : {B : Type 0} → Failure → Result B → Type 0
Fails e (ok b s) = ⊥
Fails e (err f) = e ≡ f

-- Both succeed, with related values and at the same place, or both fail for the same reason, or
-- the first is over its budget.
abbrev pub Agree : {A B : Type 0} → (A → B → Type 0) → Result A → Result B → Type 0
Agree P (ok a r) (ok b s) = P a b × (r ≡ s)
Agree P (ok a r) (err f) = ⊥
Agree P (err e) y = (e ≡ over_budget) ⊎ Fails e y

pub data Follows {A B : Type 0} (P : A → B → Type 0) (m : M A) (m' : M B) : Type 0 where
  follows : ((r : Reader) → Agree P (m r) (m' r)) → Follows P m m'

abbrev pub followed :
    {A B : Type 0} {P : A → B → Type 0} {m : M A} {m' : M B}
    → Follows P m m'
    → (r : Reader) → Agree P (m r) (m' r)
followed (follows h) = h

bind-Agree :
    {A B C D : Type 0} (P : A → B → Type 0) (Q : C → D → Type 0) (x : Result A) (y : Result B)
    (f : A → M C) (g : B → M D)
    → Agree P x y
    → ((a : A) (b : B) → P a b → Follows Q (f a) (g b))
    → Agree Q (bind_result x f) (bind_result y g)
bind-Agree P Q (ok a r) (ok b s) f g (p, e) k =
    subst (λ t. Agree Q (f a r) (g b t)) e (followed (k a b p) r)
bind-Agree P Q (ok a r) (err e) f g h k = elim h [ ]
bind-Agree P Q (err e) (ok b s) f g (inl h) k = inl h
bind-Agree P Q (err e) (ok b s) f g (inr h) k = elim h [ ]
bind-Agree P Q (err e) (err f') f g h k = h

pub bind-Follows :
    {A B C D : Type 0} (P : A → B → Type 0) (Q : C → D → Type 0) (m : M A) (m' : M B) (f : A → M C)
    (g : B → M D)
    → Follows P m m'
    → ((a : A) (b : B) → P a b → Follows Q (f a) (g b))
    → Follows Q (m >>= f) (m' >>= g)
bind-Follows P Q m m' f g h k = follows λ r. bind-Agree P Q (m r) (m' r) f g (followed h r) k

-- What follows a reading that the second makes last.
pub then-Follows :
    {A B C : Type 0} (P : A → B → Type 0) (Q : C → B → Type 0) (m : M A) (m' : M B) (f : A → M C)
    → Follows P m m'
    → ((a : A) (b : B) → P a b → Follows Q (f a) (pure b))
    → Follows Q (m >>= f) m'
then-Follows P Q m m' f h k = follows λ r. go (m r) (m' r) (followed h r)
  where
    go : (x : Result _) (y : Result _) → Agree P x y → Agree Q (bind_result x f) y
    go (ok a r) (ok b s) (p, e) = subst (λ t. Agree Q (f a r) (ok b t)) e (followed (k a b p) r)
    go (ok a r) (err e) h = elim h [ ]
    go (err e) y h = h

pub weaken-Follows :
    {A B : Type 0} (P Q : A → B → Type 0) (m : M A) (m' : M B)
    → ((a : A) (b : B) → P a b → Q a b)
    → Follows P m m'
    → Follows Q m m'
weaken-Follows P Q m m' k h = follows λ r. go (m r) (m' r) (followed h r)
  where
    go : (x : Result _) (y : Result _) → Agree P x y → Agree Q x y
    go (ok a r) (ok b s) (p, e) = (k a b p, e)
    go (ok a r) (err e) h = h
    go (err e) y h = h

-- A reading that both make.
pub both-Follows :
    {A C D : Type 0} (Q : C → D → Type 0) (m : M A) (f : A → M C) (g : A → M D)
    → ((a : A) → Follows Q (f a) (g a))
    → Follows Q (m >>= f) (m >>= g)
both-Follows Q m f g k = follows λ r. go (m r)
  where
    go : (x : Result _) → Agree Q (bind_result x f) (bind_result x g)
    go (ok a s) = followed (k a) s
    go (err e) = inr refl

pub if-Follows :
    {A B : Type 0} (P : A → B → Type 0) (b : Bool) (m n : M A) (m' n' : M B)
    → Follows P m m'
    → Follows P n n'
    → Follows P (if b then m else n) (if b then m' else n')
if-Follows P true m n m' n' h k = h
if-Follows P false m n m' n' h k = k

pub option-Follows :
    {O A B : Type 0} (P : A → B → Type 0) (o : Option O) (m : M A) (f : O → M A) (m' : M B)
    (g : O → M B)
    → Follows P m m'
    → ((x : O) → Follows P (f x) (g x))
    → Follows P
        (elim o as (λ _. M A) [ none ↦ m | some x ↦ f x ])
        (elim o as (λ _. M B) [ none ↦ m' | some x ↦ g x ])
option-Follows P none m f m' g h k = h
option-Follows P (some x) m f m' g h k = k x

pub malformed-Follows :
    {A B : Type 0} (P : A → B → Type 0) → Follows P (fail malformed) (fail malformed)
malformed-Follows P = follows λ r. inr refl

pub pure-Follows :
    {A B : Type 0} (P : A → B → Type 0) (a : A) (b : B) → P a b → Follows P (pure a) (pure b)
pure-Follows P a b p = follows λ r. (p, refl)

-- A test of the budget, which the first makes alone.
pub budget-Follows :
    {A B : Type 0} (P : A → B → Type 0) (result : List ℕ) (additional maximum : ℕ) (m : M A)
    (m' : M B)
    → (length result + additional ≤ maximum → Follows P m m')
    → Follows P (require_append result additional maximum >> m) m'
unfolding require_append
budget-Follows P result additional maximum m m' h =
    elim (Bool-cases (ltb maximum additional || ltb (maximum - additional) (length result))) [
      | inl e ↦ follows λ r. rw e (inl refl)
      | inr e ↦ follows λ r. rw e (followed (h (ground arith)) r)
    ]

abbrev pub Same : {A B : Type 0} → (A → B → Type 0) → Turn A → Turn B → Type 0
Same P (closed a) (closed b) = P a b
Same P (more a) (more b) = P a b
Same P _ _ = ⊥

module _ {A B : Type 0} (P : A → B → Type 0) (body : A → M (Turn A)) (body' : B → M (Turn B)) where
  module _ (h : (a : A) (b : B) → P a b → Follows (Same P) (body a) (body' b)) where
    turns-Follows :
        (fuel : ℕ) (a : A) (b : B) → P a b → Follows P (turns body fuel a) (turns body' fuel b)
    unfolding turns
    turns-Follows zero a b p = follows λ r. inr refl
    turns-Follows (suc fuel) a b p =
        bind-Follows (Same P) P _ _ _ _ (h a b p) (go (λ a b. turns-Follows fuel a b))
      where
        go :
            ((a : A) (b : B) → P a b → Follows P (turns body fuel a) (turns body' fuel b))
            → (t : Turn A) (u : Turn B) → Same P t u
            → Follows P (again (turns body fuel) t) (again (turns body' fuel) u)
        go repeat (closed a) (closed b) p = pure-Follows P a b p
        go repeat (more a) (more b) p = repeat a b p
        go repeat (closed a) (more b) p = elim p [ ]
        go repeat (more a) (closed b) p = elim p [ ]

    pub loop-Follows : (a : A) (b : B) → P a b → Follows P (loop body a) (loop body' b)
    unfolding loop
    loop-Follows a b p = follows λ r. followed (turns-Follows (suc (length r.rest)) a b p) r
