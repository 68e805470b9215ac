-- ===== src/Gateway/Server/Holds.antt =====
-- What an action keeps, and what it gives when it does not throw.
use nexnet.Common.{Bool, true, false, Option, none, some, ◌≡◌, refl, Result, ok, err}
use nexnet.Chain.State.{Chain, ChainError}
use nexnet.Chain.Calls.{after}
use nexnet.Gateway.State.{
  Gateway, Act, ErrorCode, continue, ◌>>=◌, ◌>>◌, done, looks, changes, throw_when, required, read,
  on_chain, on_chain_always, with_chain, with_chain_always,
}

module _ (P : Gateway → Type 0) where
  unfoldable pub Outcome : {A : Type 0} → (A → Type 0) → Gateway × Result ErrorCode A → Type 0
  Outcome Q (g, ok a) = P g × Q a
  Outcome Q (g, err e) = P g

  -- From a state with `P` the action leads to one with `P`, whether or not it throws, and what it
  -- returns has `Q`.
  pub record Holds {A : Type 0} (m : Act A) (Q : A → Type 0) : Type 0 where
    pub held : (g : Gateway) → P g → Outcome Q (m g)

  abbrev pub Kept : {A : Type 0} → Act A → Type 0
  Kept m = Holds m (λ _. Unit)

  Outcome-continue :
      {A B : Type 0} (Q : A → Type 0) (R : B → Type 0) (r : Gateway × Result ErrorCode A)
      (f : A → Act B)
      → Outcome Q r
      → ((a : A) → Q a → Holds (f a) R)
      → Outcome R (continue f r)
  unfolding Outcome
  Outcome-continue Q R (g, ok a) f o h = (h a o.1).held g o.0
  Outcome-continue Q R (g, err e) f o h = o

  pub bind-Holds :
      {A B : Type 0} {Q : A → Type 0} {R : B → Type 0} (m : Act A) (f : A → Act B)
      → Holds m Q
      → ((a : A) → Q a → Holds (f a) R)
      → Holds (m >>= f) R
  unfolding ◌>>=◌
  bind-Holds {Q = Q} {R = R} m f h k = record {
    held = λ g v. Outcome-continue Q R (m g) f (h.held g v) k;
  }

  pub bind-Kept :
      {A B : Type 0} {R : B → Type 0} (m : Act A) (f : A → Act B)
      → Kept m
      → ((a : A) → Holds (f a) R)
      → Holds (m >>= f) R
  bind-Kept m f h k = bind-Holds m f h (λ a _. k a)

  pub seq-Kept :
      {B : Type 0} {R : B → Type 0} (m : Act (Unit {0})) (k : Act B)
      → Kept m
      → Holds k R
      → Holds (m >> k) R
  unfolding ◌>>◌
  seq-Kept {R = R} m k h l = record {
    held = λ g v. Outcome-continue (λ _. Unit) R (m g) (λ _. k) (h.held g v) (λ _ _. l);
  }

  pub weaken-Holds :
      {A : Type 0} {Q R : A → Type 0} {m : Act A} → ((a : A) → Q a → R a) → Holds m Q → Holds m R
  unfolding Outcome
  weaken-Holds {A} {Q} {R} {m} f h = record { held = λ g v. weakened (m g) (h.held g v) }
    where
      weakened : (r : Gateway × Result ErrorCode A) → Outcome Q r → Outcome R r
      weakened (g, ok a) o = (o.0, f a o.1)
      weakened (g, err e) o = o

  pub done-Holds : {A : Type 0} {Q : A → Type 0} (a : A) → Q a → Holds (done a) Q
  unfolding Outcome done
  done-Holds a q = record { held = λ g v. (v, q) }

  pub looks-Holds :
      {A : Type 0} {Q : A → Type 0} (f : Gateway → A)
      → ((g : Gateway) → P g → Q (f g))
      → Holds (looks f) Q
  unfolding Outcome looks
  looks-Holds f q = record { held = λ g v. (v, q g v) }

  pub looks-Kept : {A : Type 0} (f : Gateway → A) → Kept (looks f)
  looks-Kept f = looks-Holds f (λ _ _. tt)

  pub changes-Kept : (f : Gateway → Gateway) → ((g : Gateway) → P g → P (f g)) → Kept (changes f)
  unfolding Outcome changes
  changes-Kept f h = record { held = λ g v. (h g v, tt) }

  pub throw_when-Kept : (b : Bool) (e : ErrorCode) → Kept (throw_when b e)
  unfolding Outcome throw_when
  throw_when-Kept true e = record { held = λ g v. v }
  throw_when-Kept false e = record { held = λ g v. (v, tt) }

  pub throw_when-Holds : (b : Bool) (e : ErrorCode) → Holds (throw_when b e) (λ _. b ≡ false)
  unfolding Outcome throw_when
  throw_when-Holds true e = record { held = λ g v. v }
  throw_when-Holds false e = record { held = λ g v. (v, refl) }

  pub throw_when_true-Holds : {Q : Unit {0} → Type 0} (e : ErrorCode) → Holds (throw_when true e) Q
  unfolding Outcome throw_when
  throw_when_true-Holds e = record { held = λ g v. v }

  pub seq-Holds :
      {B : Type 0} {C : Type 0} {R : B → Type 0} (m : Act (Unit {0})) (k : Act B)
      → Holds m (λ _. C)
      → (C → Holds k R)
      → Holds (m >> k) R
  unfolding ◌>>◌
  seq-Holds {C = C} {R = R} m k h l = record {
    held = λ g v. Outcome-continue (λ _. C) R (m g) (λ _. k) (h.held g v) (λ _. l);
  }

  pub required-Holds :
      {A : Type 0} (o : Option A) (e : ErrorCode) → Holds (required o e) (λ a. o ≡ some a)
  unfolding Outcome required
  required-Holds none e = record { held = λ g v. v }
  required-Holds (some a) e = record { held = λ g v. (v, refl) }

  pub required-Kept : {A : Type 0} (o : Option A) (e : ErrorCode) → Kept (required o e)
  unfolding Outcome required
  required-Kept none e = record { held = λ g v. v }
  required-Kept (some a) e = record { held = λ g v. (v, tt) }

  -- What throws always gives anything.
  pub required_none-Holds :
      {A : Type 0} {Q : A → Type 0} (e : ErrorCode) → Holds (required none e) Q
  unfolding Outcome required
  required_none-Holds e = record { held = λ g v. v }

  pub read-Kept : {A : Type 0} (r : Result ErrorCode A) → Kept (read r)
  unfolding Outcome read
  read-Kept (ok a) = record { held = λ g v. (v, tt) }
  read-Kept (err e) = record { held = λ g v. v }

  pub read-Holds : {A : Type 0} (r : Result ErrorCode A) → Holds (read r) (λ a. r ≡ ok a)
  unfolding Outcome read
  read-Holds (ok a) = record { held = λ g v. (v, refl) }
  read-Holds (err e) = record { held = λ g v. v }

  -- A state that is changed, and a test that may throw after it.
  pub tested-Kept : (m : Act (Unit {0})) → ((g : Gateway) → P g → P (m g).0) → Kept m
  unfolding Outcome
  tested-Kept m h = record { held = λ g v. tested (m g) (h g v) }
    where
      tested : (r : Gateway × Result ErrorCode (Unit {0})) → P r.0 → Outcome (λ _. Unit) r
      tested (g', ok _) w = (w, tt)
      tested (g', err e) w = w

  pub on_chain-Kept :
      {A : Type 0} (op : Chain → Result ChainError (Chain × A)) (e : ErrorCode)
      → ((g : Gateway) → P g → P (record g { chain = after g.chain (op g.chain) }))
      → Kept (on_chain op e)
  unfolding Outcome on_chain
  on_chain-Kept {A} op e h = record { held = λ g v. answered g v (op g.chain) (h g v) }
    where
      answered :
          (g : Gateway)
          → P g
          → (r : Result ChainError (Chain × A)) → P (record g { chain = after g.chain r })
          → Outcome (λ _. Unit) (with_chain g e r)
      answered g v (ok (chain, a)) w = (w, tt)
      answered g v (err _) w = v

  pub on_chain_always-Kept :
      {A : Type 0} (op : Chain → Chain × Result ChainError A) (e : ErrorCode)
      → ((g : Gateway) → P g → P (record g { chain = (op g.chain).0 }))
      → Kept (on_chain_always op e)
  unfolding Outcome on_chain_always
  on_chain_always-Kept {A} op e h = record { held = λ g v. answered g (op g.chain) (h g v) }
    where
      answered :
          (g : Gateway) (r : Chain × Result ChainError A)
          → P (record g { chain = r.0 })
          → Outcome (λ _. Unit) (with_chain_always g e r)
      answered g (chain, ok a) w = (w, tt)
      answered g (chain, err _) w = w

  Outcome-state :
      {A : Type 0} (Q : A → Type 0) (r : Gateway × Result ErrorCode A) → Outcome Q r → P r.0
  unfolding Outcome
  Outcome-state Q (g, ok a) o = o.0
  Outcome-state Q (g, err e) o = o

  pub Holds-state :
      {A : Type 0} {Q : A → Type 0} (m : Act A) → Holds m Q → (g : Gateway) → P g → P (m g).0
  Holds-state {Q = Q} m h g v = Outcome-state Q (m g) (h.held g v)
