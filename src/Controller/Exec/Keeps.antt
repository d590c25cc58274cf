-- ===== src/Controller/Exec/Keeps.antt =====
-- What a method keeps, whether it returns or fails: one rule for each way to build a method.
use transonic.Prelude.{String, Bool, true, false, Option, none, some, if◌then◌else◌}
use transonic.Result.{Result, ok, err}
use transonic.Controller.State.{Controller}
use transonic.Controller.Exec.{
  Machine, Exec, pure, raise, lift, gets, attempt, call, ask, peek, tell, modify, ◌>>=◌, if_some,
  on_result, when, ignore,
}

pub record Keeps {W A : Type 0} (P : Controller → Type 0) (m : Exec W A) : Type 0 where
  pub at : (s : Machine W) → P s.controller → P (m s).1.controller

module _ {W A : Type 0} {P : Controller → Type 0} where
  pub Keeps-pure : (a : A) → Keeps {W = W} P (pure a)
  unfolding pure
  Keeps-pure a = record { at = λ s h. h }

  pub Keeps-raise : (e : String) → Keeps {W = W} {A = A} P (raise e)
  unfolding raise
  Keeps-raise e = record { at = λ s h. h }

  pub Keeps-lift : (r : Result A) → Keeps {W = W} P (lift r)
  unfolding lift
  Keeps-lift r = record { at = λ s h. h }

  pub Keeps-gets : (f : Controller → A) → Keeps {W = W} P (gets f)
  unfolding gets
  Keeps-gets f = record { at = λ s h. h }

  pub Keeps-attempt : (m : Exec W A) → Keeps P m → Keeps P (attempt m)
  unfolding attempt
  Keeps-attempt m k = record { at = λ s h. k.at s h }

  pub Keeps-call : (f : W → Result A × W) → Keeps P (call f)
  unfolding call
  Keeps-call f = record { at = λ s h. h }

  pub Keeps-ask : (f : W → A × W) → Keeps P (ask f)
  unfolding ask
  Keeps-ask f = record { at = λ s h. h }

  pub Keeps-peek : (f : W → A) → Keeps P (peek f)
  unfolding peek
  Keeps-peek f = record { at = λ s h. h }

  pub Keeps-if : (b : Bool) (m n : Exec W A) → Keeps P m → Keeps P n → Keeps P (if b then m else n)
  Keeps-if true m n km kn = km
  Keeps-if false m n km kn = kn

module _ {W : Type 0} {P : Controller → Type 0} where
  pub Keeps-tell : (f : W → W) → Keeps P (tell f)
  unfolding tell
  Keeps-tell f = record { at = λ s h. h }

  pub Keeps-modify :
      (f : Controller → Controller)
      → ((c : Controller) → P c → P (f c))
      → Keeps {W = W} P (modify f)
  unfolding modify
  Keeps-modify f k = record { at = λ s h. k s.controller h }

  pub Keeps-when : (b : Bool) (m : Exec W (Unit {0})) → Keeps P m → Keeps P (when b m)
  unfolding when
  Keeps-when true m k = k
  Keeps-when false m k = record { at = λ s h. h }

module _ {W A B : Type 0} {P : Controller → Type 0} where
  Keeps-continue :
      (r : Result A) (f : A → Exec W B) (s : Machine W)
      → ((a : A) → Keeps P (f a))
      → P s.controller
      → P ((lift r >>= f) s).1.controller
  unfolding lift ◌>>=◌
  Keeps-continue (ok a) f s k h = (k a).at s h
  Keeps-continue (err e) f s k h = h

  pub Keeps-bind :
      (m : Exec W A) (f : A → Exec W B) → Keeps P m → ((a : A) → Keeps P (f a)) → Keeps P (m >>= f)
  unfolding ◌>>=◌ lift
  Keeps-bind m f km kf = record {
    at = λ s h. let (r, s') = m s in Keeps-continue r f s' kf (km.at s h);
  }

  pub Keeps-if_some :
      (o : Option A) (f : A → Exec W B) (n : Exec W B)
      → ((a : A) → Keeps P (f a))
      → Keeps P n
      → Keeps P (if_some o f n)
  unfolding if_some
  Keeps-if_some none f n kf kn = kn
  Keeps-if_some (some a) f n kf kn = kf a

  pub Keeps-on_result :
      (r : Result A) (f : A → Exec W B) (g : String → Exec W B)
      → ((a : A) → Keeps P (f a))
      → ((e : String) → Keeps P (g e))
      → Keeps P (on_result r f g)
  unfolding on_result
  Keeps-on_result (ok a) f g kf kg = kf a
  Keeps-on_result (err e) f g kf kg = kg e

module _ {W A : Type 0} {P : Controller → Type 0} where
  pub Keeps-ignore : (m : Exec W A) → Keeps P m → Keeps P (ignore m)
  unfolding ignore
  Keeps-ignore m k = record { at = λ s h. k.at s h }

pub ruleset keeps_rules = (
  Keeps-pure, Keeps-raise, Keeps-lift, Keeps-gets, Keeps-attempt, Keeps-call, Keeps-ask, Keeps-peek,
  Keeps-if, Keeps-tell, Keeps-when, Keeps-bind, Keeps-if_some, Keeps-on_result, Keeps-ignore,
)
