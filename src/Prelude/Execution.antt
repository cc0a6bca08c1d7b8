-- ===== src/Prelude/Execution.antt =====
-- How a method ends, and methods in sequence. A method runs on the state `S` of the objects that it
-- may change, and an exception leaves them as they were when it was thrown.

use mathlib.Core.Bool.{Bool, true, false}
use mathlib.Core.Option.{Option, none, some}
use mathlib.Core.Path.{◌≡◌, ap, ◌∙◌}
use sevmgr.Prelude.Tests.{if◌then◌else◌}
use sevmgr.Prelude.Int.{ℤ, ◌+ℤ◌, ◌-ℤ◌, fits_int}

-- The exception classes of SEVMGR_Exceptions.hpp and of StdAir that the code throws or lets
-- through, without their texts.
pub data Exception : Type 0 where
  event_queue_exception : Exception
  event_exception : Exception
  non_initialised_service : Exception
  json_parser_error : Exception
  bad_date : Exception

-- `aborted` is a failed assertion; `undefined` is undefined behaviour, such as an `int` that
-- overflows; `diverged` is a loop that its fuel did not bring to an end.
pub data Result (S A : Type 0) : Type 0 where
  done : A → S → Result S A
  raised : Exception → S → Result S A
  aborted : Result S A
  undefined : Result S A
  diverged : Result S A

abbrev pub Exec : Type 0 → Type 0 → Type 0
Exec S A = S → Result S A

abbrev pub pure : {S A : Type 0} → A → Exec S A
pure a s = done a s

abbrev pub throw : {S A : Type 0} → Exception → Exec S A
throw x s = raised x s

abbrev pub bind_result : {S A B : Type 0} → Result S A → (A → Exec S B) → Result S B
bind_result (done a s) f = f a s
bind_result (raised x s) f = raised x s
bind_result aborted f = aborted
bind_result undefined f = undefined
bind_result diverged f = diverged

infixl 5 ◌>>=◌ ◌>>◌
abbrev pub ◌>>=◌ : {S A B : Type 0} → Exec S A → (A → Exec S B) → Exec S B
◌>>=◌ m f s = bind_result (m s) f

abbrev pub ◌>>◌ : {S B : Type 0} → Exec S (Unit {0}) → Exec S B → Exec S B
m >> k = m >>= λ _. k

-- A method that returns, and what follows it.
pub bind_result-done :
    {S A B : Type 0} {a : A} {σ : S} {o : Result S B} (r : Result S A) (f : A → Exec S B)
    → r ≡ done a σ
    → f a σ ≡ o
    → bind_result r f ≡ o
bind_result-done r f h k = ap (λ r. bind_result r f) h ∙ k

-- A method of a part of the state, run on the whole: `get` reads the part, `put` writes it back.
abbrev pub zoom_result : {S T A : Type 0} → (S → T → S) → S → Result T A → Result S A
zoom_result put s (done a t) = done a (put s t)
zoom_result put s (raised x t) = raised x (put s t)
zoom_result put s aborted = aborted
zoom_result put s undefined = undefined
zoom_result put s diverged = diverged

abbrev pub zoom : {S T A : Type 0} → (S → T) → (S → T → S) → Exec T A → Exec S A
zoom get put m s = zoom_result put s (m (get s))

module _ {S : Type 0} where
  abbrev pub gets : {A : Type 0} → (S → A) → Exec S A
  gets f s = done (f s) s

  abbrev pub modify : (S → S) → Exec S (Unit {0})
  modify f s = done tt (f s)

  -- `assert`, in a build that has assertions.
  abbrev pub assert_that : Bool → Exec S (Unit {0})
  assert_that true s = done tt s
  assert_that false s = aborted

  -- A call through a pointer, which must not be null.
  abbrev pub dereference : {A : Type 0} → Option A → Exec S A
  dereference none s = aborted
  dereference (some a) s = done a s

  -- The sum and the difference of two values of type `int`.
  abbrev pub add_count : ℤ → ℤ → Exec S ℤ
  add_count a b s = if fits_int (a +ℤ b) then done (a +ℤ b) s else undefined

  abbrev pub sub_count : ℤ → ℤ → Exec S ℤ
  sub_count a b s = if fits_int (a -ℤ b) then done (a -ℤ b) s else undefined

-- `P` holds of the state that a method leaves, whether it returns or throws.
abbrev pub Leaves : {S A : Type 0} → (S → Type 0) → Result S A → Type 0
Leaves P (done a s) = P s
Leaves P (raised x s) = P s
Leaves P aborted = Unit {0}
Leaves P undefined = Unit {0}
Leaves P diverged = Unit {0}

pub Leaves-bind :
    {S A B : Type 0} (P : S → Type 0) (r : Result S A) (f : A → Exec S B)
    → Leaves P r
    → ((a : A) (s : S) → P s → Leaves P (f a s))
    → Leaves P (bind_result r f)
Leaves-bind P (done a s) f h k = k a s h
Leaves-bind P (raised x s) f h k = h
Leaves-bind P aborted f h k = tt
Leaves-bind P undefined f h k = tt
Leaves-bind P diverged f h k = tt

pub Leaves-weaken :
    {S A : Type 0} (P Q : S → Type 0) (r : Result S A)
    → ((s : S) → P s → Q s)
    → Leaves P r
    → Leaves Q r
Leaves-weaken P Q (done a s) w h = w s h
Leaves-weaken P Q (raised x s) w h = w s h
Leaves-weaken P Q aborted w h = tt
Leaves-weaken P Q undefined w h = tt
Leaves-weaken P Q diverged w h = tt

-- The same with another predicate of the states between the two.
pub Leaves-chain :
    {S A B : Type 0} (P Q : S → Type 0) (r : Result S A) (f : A → Exec S B)
    → ((s : S) → P s → Q s)
    → Leaves P r
    → ((a : A) (s : S) → P s → Leaves Q (f a s))
    → Leaves Q (bind_result r f)
Leaves-chain P Q (done a s) f w h k = k a s h
Leaves-chain P Q (raised x s) f w h k = w s h
Leaves-chain P Q aborted f w h k = tt
Leaves-chain P Q undefined f w h k = tt
Leaves-chain P Q diverged f w h k = tt

-- A result for a part of the state, put back.
pub zoom_result-Leaves :
    {S T A : Type 0} (P : T → Type 0) (Q : S → Type 0) (put : S → T → S) (s : S) (r : Result T A)
    → ((t : T) → P t → Q (put s t))
    → Leaves P r
    → Leaves Q (zoom_result put s r)
zoom_result-Leaves P Q put s (done a t) w h = w t h
zoom_result-Leaves P Q put s (raised x t) w h = w t h
zoom_result-Leaves P Q put s aborted w h = tt
zoom_result-Leaves P Q put s undefined w h = tt
zoom_result-Leaves P Q put s diverged w h = tt

pub Leaves-both :
    {S A : Type 0} (P Q : S → Type 0) (r : Result S A)
    → Leaves P r
    → Leaves Q r
    → Leaves (λ s. P s × Q s) r
Leaves-both P Q (done a s) h k = (h, k)
Leaves-both P Q (raised x s) h k = (h, k)
Leaves-both P Q aborted h k = tt
Leaves-both P Q undefined h k = tt
Leaves-both P Q diverged h k = tt

-- The same of a method that does not throw.
abbrev pub Returns : {S A : Type 0} → (S → Type 0) → Result S A → Type 0
Returns P (done a s) = P s
Returns P (raised x s) = ⊥
Returns P aborted = Unit {0}
Returns P undefined = Unit {0}
Returns P diverged = Unit {0}

pub Returns-bind :
    {S A B : Type 0} (P Q : S → Type 0) (r : Result S A) (f : A → Exec S B)
    → Returns P r
    → ((a : A) (s : S) → P s → Returns Q (f a s))
    → Returns Q (bind_result r f)
Returns-bind P Q (done a s) f h k = k a s h
Returns-bind P Q (raised x s) f h k = absurd h
Returns-bind P Q aborted f h k = tt
Returns-bind P Q undefined f h k = tt
Returns-bind P Q diverged f h k = tt

pub Returns-Leaves : {S A : Type 0} (P : S → Type 0) (r : Result S A) → Returns P r → Leaves P r
Returns-Leaves P (done a s) h = h
Returns-Leaves P (raised x s) h = absurd h
Returns-Leaves P aborted h = tt
Returns-Leaves P undefined h = tt
Returns-Leaves P diverged h = tt

pub Returns-weaken :
    {S A : Type 0} (P Q : S → Type 0) (r : Result S A)
    → ((s : S) → P s → Q s)
    → Returns P r
    → Returns Q r
Returns-weaken P Q (done a s) w h = w s h
Returns-weaken P Q (raised x s) w h = h
Returns-weaken P Q aborted w h = tt
Returns-weaken P Q undefined w h = tt
Returns-weaken P Q diverged w h = tt

-- A method that does not throw.
abbrev pub IsQuiet : {S A : Type 0} → Result S A → Type 0
IsQuiet r = Returns (λ _. Unit {0}) r

pub Leaves-Returns :
    {S A : Type 0} (P : S → Type 0) (r : Result S A) → IsQuiet r → Leaves P r → Returns P r
Leaves-Returns P (done a s) q h = h
Leaves-Returns P (raised x s) q h = absurd q
Leaves-Returns P aborted q h = tt
Leaves-Returns P undefined q h = tt
Leaves-Returns P diverged q h = tt

-- A state with `P` is left as one with `Q`, whether a method returns or throws.
pub record Leads {S A : Type 0} (P Q : S → Type 0) (m : Exec S A) : Type 0 where
  pub at : (s : S) → P s → Leaves Q (m s)

-- A method keeps `P`.
abbrev pub Keeps : {S A : Type 0} → (S → Type 0) → Exec S A → Type 0
Keeps P m = Leads P P m

pub Leads-bind :
    {S A B : Type 0} {P Q R : S → Type 0} (m : Exec S A) (f : A → Exec S B)
    → ((s : S) → Q s → R s)
    → Leads P Q m
    → ((a : A) → Leads Q R (f a))
    → Leads P R (m >>= f)
Leads-bind {P} {Q} {R} m f weak km kf = record {
  at = λ s h. Leaves-chain Q R (m s) f weak (km.at s h) λ a s'. (kf a).at s';
}

module _ {S : Type 0} {P : S → Type 0} where
  pub Keeps-bind :
      {A B : Type 0} (m : Exec S A) (f : A → Exec S B)
      → Keeps P m
      → ((a : A) → Keeps P (f a))
      → Keeps P (m >>= f)
  Keeps-bind m f km kf = Leads-bind m f (λ s h. h) km kf

  pub Keeps-dereference : {A : Type 0} (o : Option A) → Keeps P (dereference {S = S} o)
  Keeps-dereference none = record { at = λ s h. tt }
  Keeps-dereference (some a) = record { at = λ s h. h }

  pub Keeps-pure : {A : Type 0} (a : A) → Keeps P (pure {S = S} a)
  Keeps-pure a = record { at = λ s h. h }
