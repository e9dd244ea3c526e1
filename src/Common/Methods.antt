-- ===== src/Common/Methods.antt =====
-- A method with a pointer receiver: the outcome and the receiver afterwards, which keeps what was
-- written before an error or a panic.
use mathlib.Core.Path.{◌≡◌, ap, refl}
use mathlib.Core.Bool.{Bool, true, false}
use qzmq.Common.Outcomes.{Outcome, Error, ok, err, panic}

abbrev pub Action : Type 0 → Type 0 → Type 0
Action S A = S → Outcome A × S

-- The rest of a method after a call: an error that is passed on skips it, and so does a panic.
abbrev pub resume : {S A B : Type 0} → (A → Action S B) → Outcome A × S → Outcome B × S
resume f (ok a, s) = f a s
resume f (err e, s) = (err e, s)
resume f (panic, s) = (panic, s)

infixl 5 ◌>>=◌ ◌>>◌
abbrev pub ◌>>=◌ : {S A B : Type 0} → Action S A → (A → Action S B) → Action S B
◌>>=◌ m f s = resume f (m s)

abbrev pub ◌>>◌ : {S A B : Type 0} → Action S A → Action S B → Action S B
m >> k = m >>= λ _. k

module _ {S : Type 0} where
  abbrev pub pure : {A : Type 0} → A → Action S A
  pure a s = (ok a, s)

  -- `if cond { return e }`.
  abbrev pub fail_if : Bool → Error → Action S (Unit {0})
  fail_if true e s = (err e, s)
  fail_if false e s = (ok tt, s)

  abbrev pub modify : (S → S) → Action S (Unit {0})
  modify f s = (ok tt, f s)

  abbrev pub gets : {A : Type 0} → (S → A) → Action S A
  gets f s = (ok (f s), s)

  -- A call that does not touch the receiver.
  abbrev pub lift : {A : Type 0} → Outcome A → Action S A
  lift r s = (r, s)

-- One step of a block whose calls stay shut.
pub >>=-of_ok :
    {S A B : Type 0} (m : Action S A) (f : A → Action S B) (s : S) {a : A} {s' : S}
    → m s ≡ (ok a, s')
    → (m >>= f) s ≡ f a s'
>>=-of_ok m f s e = ap (resume f) e

pub >>=-of_err :
    {S A B : Type 0} (m : Action S A) (f : A → Action S B) (s : S) {e : Error} {s' : S}
    → m s ≡ (err e, s')
    → (m >>= f) s ≡ (err e, s')
>>=-of_err m f s p = ap (resume f) p

pub >>=-of_panic :
    {S A B : Type 0} (m : Action S A) (f : A → Action S B) (s : S) {s' : S}
    → m s ≡ (panic, s')
    → (m >>= f) s ≡ (panic, s')
>>=-of_panic m f s p = ap (resume f) p

-- A block that ended well ran its first call to a good end.
pub >>=-eq_ok :
    {S A B : Type 0} (m : Action S A) (f : A → Action S B) (s : S) {b : B} {t : S}
    → (m >>= f) s ≡ (ok b, t)
    → (a : A) × (s' : S) × (m s ≡ (ok a, s')) × (f a s' ≡ (ok b, t))
>>=-eq_ok {S} {A} {B} m f s {b} {t} h = inspect (m s) refl h
  where
    inspect :
        (r : Outcome A × S)
        → m s ≡ r
        → resume f r ≡ (ok b, t)
        → (a : A) × (s' : S) × (m s ≡ (ok a, s')) × (f a s' ≡ (ok b, t))
    inspect (ok a, s') e h = (a, s', e, h)
    inspect (err x, s') e h = cc
    inspect (panic, s') e h = cc

-- What holds after a block: `P` holds of the end of its first call, and leads to `Q`.
pub after_bind :
    {S A B : Type 0} (P : Outcome A × S → Type 0) (Q : Outcome B × S → Type 0) (m : Action S A)
    (f : A → Action S B) (s : S)
    → P (m s)
    → ((a : A) (s' : S) → P (ok a, s') → Q (f a s'))
    → ((e : Error) (s' : S) → P (err e, s') → Q (err e, s'))
    → ((s' : S) → P (panic, s') → Q (panic, s'))
    → Q ((m >>= f) s)
after_bind {S} {A} {B} P Q m f s p on_ok on_err on_panic = inspect (m s) p
  where
    inspect : (r : Outcome A × S) → P r → Q (resume f r)
    inspect (ok a, s') h = on_ok a s' h
    inspect (err e, s') h = on_err e s' h
    inspect (panic, s') h = on_panic s' h
