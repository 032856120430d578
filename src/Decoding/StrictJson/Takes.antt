-- ===== src/Decoding/StrictJson/Takes.antt =====
-- What a reading takes of the bytes left, and that it does not lack fuel: rules that follow the
-- code of StrictJsonReader, and its small methods.
pub mod Strings
pub mod Numbers
use cuac.Common.{
  ℕ, zero, suc, ◌+◌, ◌-◌, ◌≤◌, ◌<◌, ◌≡◌, ◌≢◌, Bool, true, false, Option, none, some, List, [], ◌∷◌,
  length, ◌==◌, if◌then◌else◌, arith,
}
use cuac.Decoding.StrictJson.Reader.{
  Reader, malformed, over_budget, out_of_fuel, Result, ok, err, M, bind_result, ◌>>=◌, pure, fail,
  check, peek, skip_byte, next_byte, require_more, skip_whitespace_loop, skip_whitespace, expect,
  require_object_key, separator, literal, Turn, closed, more, again, turns, loop, head,
}

abbrev pub Safe : {A : Type 0} → (A → Reader → Type 0) → Result A → Type 0
Safe P (ok a r) = P a r
Safe P (err e) = e ≢ out_of_fuel

pub bind-Safe :
    {A B : Type 0} (P : A → Reader → Type 0) (Q : B → Reader → Type 0) (m : Result A) (f : A → M B)
    → Safe P m
    → ((a : A) (r : Reader) → P a r → Safe Q (f a r))
    → Safe Q (bind_result m f)
bind-Safe P Q (ok a r) f h k = k a r h
bind-Safe P Q (err e) f h k = h

-- At most `n` bytes are left, `k` of them to spare, under the same nesting budget.
abbrev pub Left : {A : Type 0} → ℕ → ℕ → ℕ → A → Reader → Type 0
Left k n budget _ r = (length r.rest + k ≤ n) × (r.max_json_nesting ≡ budget)

pub fewer :
    {A : Type 0} (x : Result A) (j k n n' budget : ℕ)
    → ((i : ℕ) → i + k ≤ n → i + j ≤ n')
    → Safe (Left k n budget) x
    → Safe (Left j n' budget) x
fewer (ok a s) j k n n' budget h (l, b) = (h _ l, b)
fewer (err e) j k n n' budget h s = s

-- A reading that takes `k` bytes at least, and returns.
pub data Takes {A : Type 0} (budget k : ℕ) (m : M A) : Type 0 where
  takes :
      ((n : ℕ) (r : Reader) → Left 0 n budget tt r → Safe (Left k n budget) (m r))
      → Takes budget k m

-- A turn of a loop that goes on takes a byte.
abbrev pub Turned : {A : Type 0} → ℕ → ℕ → Turn A → Reader → Type 0
Turned n budget (closed a) r = Left 0 n budget tt r
Turned n budget (more a) r = Left 1 n budget tt r

pub data Advances {A : Type 0} (budget : ℕ) (m : M (Turn A)) : Type 0 where
  advances :
      ((n : ℕ) (r : Reader) → Left 0 n budget tt r → Safe (Turned n budget) (m r))
      → Advances budget m

abbrev pub taken :
    {A : Type 0} {budget k : ℕ} {m : M A}
    → Takes budget k m
    → (n : ℕ) (r : Reader) → Left 0 n budget tt r
    → Safe (Left k n budget) (m r)
taken (takes t) = t

abbrev advanced :
    {A : Type 0} {budget : ℕ} {m : M (Turn A)}
    → Advances budget m
    → (n : ℕ) (r : Reader) → Left 0 n budget tt r
    → Safe (Turned n budget) (m r)
advanced (advances t) = t

module _ {budget : ℕ} where
  module _ {A : Type 0} where
    pub weaken-Takes : (m : M A) (k j : ℕ) → j ≤ k → Takes budget k m → Takes budget j m
    weaken-Takes m k j h (takes t) =
        takes λ n r l. fewer (m r) j k n n budget (λ i g. omega arith) (t n r l)

    pub if-Takes :
        (k : ℕ) (b : Bool) (m m' : M A)
        → Takes budget k m
        → Takes budget k m'
        → Takes budget k (if b then m else m')
    if-Takes k true m m' h h' = h
    if-Takes k false m m' h h' = h'

    pub pure-Takes : (a : A) → Takes budget 0 (pure a)
    pure-Takes a = takes λ n r (l, b). (omega arith, b)

  pub bind-Takes :
      {A B : Type 0} (j k : ℕ) (m : M A) (f : A → M B)
      → Takes budget j m
      → ((a : A) → Takes budget k (f a))
      → Takes budget (j + k) (m >>= f)
  bind-Takes j k m f (takes h) g = takes λ n r l.
      bind-Safe (Left j n budget) (Left (j + k) n budget) (m r) f (h n r l) λ a s (t, b).
        fewer (f a s) (j + k) k (n - j) n budget (λ i e. omega arith)
          (taken (g a) (n - j) s (omega arith, b))

  pub option-Takes :
      {A B : Type 0} (k : ℕ) (o : Option A) (m : M B) (f : A → M B)
      → Takes budget k m
      → ((a : A) → Takes budget k (f a))
      → Takes budget k (elim o as (λ _. M B) [ none ↦ m | some a ↦ f a ])
  option-Takes k none m f h g = h
  option-Takes k (some a) m f h g = g a

  pub malformed-Takes : (A : Type 0) (k : ℕ) → Takes {A = A} budget k (fail malformed)
  malformed-Takes A k = takes λ n r l e. cc

  pub over_budget-Takes : (A : Type 0) (k : ℕ) → Takes {A = A} budget k (fail over_budget)
  over_budget-Takes A k = takes λ n r l e. cc

  pub check-Takes : Takes budget 0 check
  unfolding check
  check-Takes = takes λ n r l. ground arith

  pub next_byte-Takes : Takes budget 1 next_byte
  unfolding next_byte
  next_byte-Takes = takes λ n r l. ground arith

  pub peek-Takes : Takes budget 0 peek
  peek-Takes = takes λ n r l. ground arith

  pub skip_byte-Takes : Takes budget 0 skip_byte
  skip_byte-Takes = takes λ n r l. ground arith

  pub require_more-Takes : Takes budget 0 require_more
  unfolding require_more
  require_more-Takes = takes λ n r l. ground arith

  loop_on_whitespace :
      (cs : List ℕ) (n : ℕ) (r : Reader)
      → length cs ≤ n
      → r.max_json_nesting ≡ budget
      → Safe (Left 0 n budget) (skip_whitespace_loop cs r)
  unfolding skip_whitespace_loop check
  loop_on_whitespace [] n r l b = (omega arith, b)
  loop_on_whitespace (c ∷ cs) n r l b =
      let ih = loop_on_whitespace cs n (record r { checks = r.checks + 1 }) (omega arith) b in
      ground arith

  pub skip_whitespace-Takes : Takes budget 0 skip_whitespace
  unfolding skip_whitespace
  skip_whitespace-Takes = takes λ n r (l, b). loop_on_whitespace r.rest n r (omega arith) b

  pub expect-Takes : (c : ℕ) → Takes budget 1 (expect c)
  unfolding expect
  expect-Takes c = bind-Takes 0 1 _ _ check-Takes λ _.
      bind-Takes 1 0 _ _ next_byte-Takes
        λ d. if-Takes 0 (d == c) _ _ (pure-Takes tt) (malformed-Takes _ _)

  pub require_object_key-Takes : Takes budget 0 require_object_key
  unfolding require_object_key
  require_object_key-Takes = takes λ n r l. ground arith

  pub separator-Takes : (c : ℕ) → Takes budget 0 (separator c)
  unfolding separator
  separator-Takes c = bind-Takes 0 0 _ _ skip_whitespace-Takes λ _.
      bind-Takes 0 0 _ _ peek-Takes λ d.
        if-Takes 0 (d == b',') _ _
          (bind-Takes 0 0 _ _ skip_byte-Takes λ _. bind-Takes 0 0 _ _ skip_whitespace-Takes λ _.
            bind-Takes 0 0 _ _ peek-Takes
              λ e. if-Takes 0 (e == c) _ _ (malformed-Takes _ _) (pure-Takes tt))
          (if-Takes 0 (d == c) _ _ (pure-Takes tt) (malformed-Takes _ _))

  literal-Takes : (cs : List ℕ) → Takes budget 0 (literal cs)
  unfolding literal
  literal-Takes [] = pure-Takes tt
  literal-Takes (c ∷ cs) =
      weaken-Takes _ 1 0 (omega arith) (bind-Takes 1 0 _ _ (expect-Takes c) λ _. literal-Takes cs)

  pub word-Takes : (c : ℕ) (cs : List ℕ) → Takes budget 1 (literal (c ∷ cs))
  unfolding literal
  word-Takes c cs = bind-Takes 1 0 _ _ (expect-Takes c) λ _. literal-Takes cs

  module _ {A : Type 0} where
    pub Takes→Advances : (m : M (Turn A)) → Takes budget 1 m → Advances budget m
    Takes→Advances m (takes h) = advances λ n r l. turned n (m r) (h n r l)
      where
        turned : (n : ℕ) (x : Result (Turn A)) → Safe (Left 1 n budget) x → Safe (Turned n budget) x
        turned n (ok (closed a) s) (l, b) = (omega arith, b)
        turned n (ok (more a) s) l = l
        turned n (err e) h = h

    module _ (body : A → M (Turn A)) (h : (a : A) → Advances budget (body a)) where
      turns-Safe :
          (fuel n : ℕ) (a : A) (r : Reader)
          → length r.rest < fuel
          → Left 0 n budget tt r
          → Safe (Left 0 n budget) (turns body fuel a r)
      unfolding turns
      turns-Safe zero n a r f l = elim f [ ]
      turns-Safe (suc fuel) n a r f (l, b) =
          bind-Safe (Turned (length r.rest) budget) (Left 0 n budget) (body a r) _
            (advanced (h a) (length r.rest) r (omega arith, b)) (go (λ a s. turns-Safe fuel n a s))
        where
          go :
              ((a : A) (s : Reader)
                → length s.rest < fuel
                → Left 0 n budget tt s
                → Safe (Left 0 n budget) (turns body fuel a s))
              → (t : Turn A) (s : Reader) → Turned (length r.rest) budget t s
              → Safe (Left 0 n budget) (again (turns body fuel) t s)
          go repeat (closed a) s (g, b) = (omega arith, b)
          go repeat (more a) s (g, b) = repeat a s (omega arith) (omega arith, b)

      pub loop-Takes : (a : A) → Takes budget 0 (loop body a)
      unfolding loop
      loop-Takes a = takes λ n r l. turns-Safe (suc (length r.rest)) n a r (omega arith) l

    -- A loop that looks at the next byte for its end.
    pub peek-Advances :
        (test : ℕ → Bool) (a : A) (m : M (Turn A))
        → Takes budget 1 m
        → Advances budget (do c ← peek; if test c then pure (closed a) else m)
    peek-Advances test a m h = advances λ n r l. choose n r l (test (head r.rest))
      where
        choose :
            (n : ℕ) (r : Reader)
            → Left 0 n budget tt r
            → (b : Bool) → Safe (Turned n budget) ((if b then pure (closed a) else m) r)
        choose n r l true = l
        choose n r l false = advanced (Takes→Advances m h) n r l
