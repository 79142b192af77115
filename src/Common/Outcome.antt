-- ===== src/Common/Outcome.antt =====
-- What a fallible function of the program comes back with: `Ok`, `Err`, or a panic of the Rust
-- runtime, such as an index out of bounds.
use Prim.Native.Nat.{ℕ, ◌≤◌, ◌<◌}
use mathlib.Core.Path.{◌≡◌, refl}
use mathlib.Core.Bool.{Bool, true, false}
use mathlib.Core.Option.{Option, none, some}
use mathlib.Core.List.{List}
use discord_voice_service.Common.Lists.{length, get_elem?, get_or, get_elem?-eq-get_or, take, drop}
use discord_voice_service.Common.Tests.{ltb, if◌then◌else◌, le→ltb_false}

pub data Result {ℓ κ} (E : Type ℓ) (A : Type κ) : Type (ℓ ⊔ κ) where
  ok : A → Result E A
  err : E → Result E A
  panic : Result E A

infixl 5 ◌>>=◌ ◌>>◌
abbrev pub ◌>>=◌ {ℓ κ μ} :
    {E : Type ℓ} {A : Type κ} {B : Type μ} → Result E A → (A → Result E B) → Result E B
ok a >>= f = f a
err e >>= f = err e
panic >>= f = panic

abbrev pub ◌>>◌ {ℓ μ} : {E : Type ℓ} {B : Type μ} → Result E (Unit {0}) → Result E B → Result E B
m >> k = m >>= λ _. k

-- `guard?; Ok(a)`
abbrev pub and_ok {ℓ κ} : {E : Type ℓ} {A : Type κ} → Result E (Unit {0}) → A → Result E A
and_ok guard a = guard >> ok a

-- `method(&mut self)?` and what follows it: the state is kept on every path.
abbrev pub and_then {ℓ κ μ σ} :
    {E : Type ℓ} {A : Type κ} {B : Type μ} {S : Type σ}
    → Result E A × S
    → (A → S → Result E B × S)
    → Result E B × S
and_then (ok a, s) k = k a s
and_then (err e, s) k = (err e, s)
and_then (panic, s) k = (panic, s)

-- `if test { return Err(e) }`
abbrev pub fail_if {ℓ} : {E : Type ℓ} → Bool → E → Result E (Unit {0})
fail_if true e = err e
fail_if false e = ok tt

-- `.ok_or(e)`
abbrev pub ok_or {ℓ κ} : {E : Type ℓ} {A : Type κ} → Option A → E → Result E A
ok_or (some a) e = ok a
ok_or none e = err e

-- `.map_err(f)`
abbrev pub map_err {ℓ κ μ} :
    {E : Type ℓ} {F : Type κ} {A : Type μ} → (E → F) → Result E A → Result F A
map_err f (ok a) = ok a
map_err f (err e) = err (f e)
map_err f panic = panic

abbrev or_panic {ℓ κ} : {E : Type ℓ} {A : Type κ} → Option A → Result E A
or_panic (some a) = ok a
or_panic none = panic

-- `xs[i]`
abbrev pub index {ℓ κ} : {E : Type ℓ} {A : Type κ} → List A → ℕ → Result E A
index xs i = or_panic (get_elem? xs i)

-- `&xs[n..]` and `&xs[..n]`
abbrev pub slice_from {ℓ κ} : {E : Type ℓ} {A : Type κ} → List A → ℕ → Result E (List A)
slice_from xs n = if ltb (length xs) n then panic else ok (drop n xs)

abbrev pub slice_to {ℓ κ} : {E : Type ℓ} {A : Type κ} → List A → ℕ → Result E (List A)
slice_to xs n = if ltb (length xs) n then panic else ok (take n xs)

module _ {ℓ κ} {E : Type ℓ} {A : Type κ} where
  pub index_lem :
      (xs : List A) (i : ℕ) (d : A) → i < length xs → index {E = E} xs i ≡ ok (get_or xs i d)
  index_lem xs i d h = rw (get_elem?-eq-get_or xs i d h)

  pub slice_from_lem :
      (xs : List A) (n : ℕ) → n ≤ length xs → slice_from {E = E} xs n ≡ ok (drop n xs)
  slice_from_lem xs n h = rw (le→ltb_false (length xs) n h)

  pub slice_to_lem : (xs : List A) (n : ℕ) → n ≤ length xs → slice_to {E = E} xs n ≡ ok (take n xs)
  slice_to_lem xs n h = rw (le→ltb_false (length xs) n h)

-- A function with no panic, whose result, if there is one, satisfies `P`.
abbrev pub Ensures {ℓ κ} : {E : Type ℓ} {A : Type κ} → (A → Type 0) → Result E A → Type 0
Ensures P (ok a) = P a
Ensures P (err e) = Unit
Ensures P panic = ⊥

-- No panic, `Q` of the error or `P` of the result.
abbrev pub Yields {ℓ κ} :
    {E : Type ℓ} {A : Type κ} → (E → Type 0) → (A → Type 0) → Result E A → Type 0
Yields Q P (ok a) = P a
Yields Q P (err e) = Q e
Yields Q P panic = ⊥

pub Yields-bind {ℓ κ μ} :
    {E : Type ℓ} {A : Type κ} {B : Type μ} (Q : E → Type 0) (P : A → Type 0) (R : B → Type 0)
    (m : Result E A) (f : A → Result E B)
    → Yields Q P m
    → ((a : A) → m ≡ ok a → P a → Yields Q R (f a))
    → Yields Q R (m >>= f)
Yields-bind Q P R (ok a) f p h = h a refl p
Yields-bind Q P R (err e) f p h = p
Yields-bind Q P R panic f p h = p

-- Where the whole succeeds, its first part does.
pub >>=-eq-ok {ℓ κ μ} :
    {E : Type ℓ} {A : Type κ} {B : Type μ} (first : Result E A) (rest : A → Result E B) {end : B}
    → (first >>= rest) ≡ ok end
    → (mid : A) × (first ≡ ok mid) × (rest mid ≡ ok end)
>>=-eq-ok (ok mid) rest done = (mid, refl, done)
>>=-eq-ok (err e) rest done = cc
>>=-eq-ok panic rest done = cc

pub fail_if-eq-ok {ℓ κ} :
    {E : Type ℓ} {A : Type κ} (b : Bool) (e : E) (k : Result E A) {a : A}
    → (fail_if b e >> k) ≡ ok a
    → (b ≡ false) × (k ≡ ok a)
fail_if-eq-ok true e k h = cc
fail_if-eq-ok false e k h = (refl, h)

-- A value or an error.
abbrev pub NoPanic {ℓ κ} : {E : Type ℓ} {A : Type κ} → Result E A → Type 0
NoPanic (ok a) = Unit
NoPanic (err e) = Unit
NoPanic panic = ⊥

pub and_then-NoPanic {ℓ κ μ σ} :
    {E : Type ℓ} {A : Type κ} {B : Type μ} {S : Type σ} (first : Result E A × S)
    (rest : A → S → Result E B × S)
    → NoPanic first.0
    → ((a : A) (s : S) → NoPanic (rest a s).0)
    → NoPanic (and_then first rest).0
and_then-NoPanic (ok a, s) rest h k = k a s
and_then-NoPanic (err e, s) rest h k = tt
and_then-NoPanic (panic, s) rest h k = h
