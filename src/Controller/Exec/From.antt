-- ===== src/Controller/Exec/From.antt =====
-- What holds after a method, whether it returned or failed, where a condition held before it.
use transonic.Prelude.{◌≡◌, refl, String, Bool, true, false, Option, none, some, if◌then◌else◌}
use transonic.Result.{Result, ok, err, is_ok}
use transonic.Controller.State.{Controller}
use transonic.Controller.Exec.{
  Machine, Exec, pure, raise, lift, gets, attempt, modify, ◌>>=◌, if_some, on_result, ignore,
}
use transonic.Controller.Exec.Keeps.{Keeps}

pub record From {W A : Type 0} (P : Controller → Type 0) (m : Exec W A) (R : Controller → Type 0)
    : Type 0 where
  pub after : (s : Machine W) → P s.controller → R (m s).1.controller

module _ {W A : Type 0} {P R : Controller → Type 0} where
  pub From-pure : (a : A) → ((c : Controller) → P c → R c) → From {W = W} P (pure a) R
  unfolding pure
  From-pure a k = record { after = λ s h. k s.controller h }

  pub From-raise :
      (e : String) → ((c : Controller) → P c → R c) → From {W = W} {A = A} P (raise e) R
  unfolding raise
  From-raise e k = record { after = λ s h. k s.controller h }

  pub From-if :
      (b : Bool) (m n : Exec W A)
      → (b ≡ true → From P m R)
      → (b ≡ false → From P n R)
      → From P (if b then m else n) R
  From-if true m n km kn = km refl
  From-if false m n km kn = kn refl

  pub From-attempt : (m : Exec W A) → From P m R → From P (attempt m) R
  unfolding attempt
  From-attempt m k = record { after = λ s h. k.after s h }

  -- A method that keeps `R`, from a condition that implies it.
  pub From-keeps : (m : Exec W A) → ((c : Controller) → P c → R c) → Keeps R m → From P m R
  From-keeps m k km = record { after = λ s h. km.at s (k s.controller h) }

module _ {W A : Type 0} {P : Controller → Type 0} where
  pub Keeps-from : (m : Exec W A) → From P m P → Keeps P m
  Keeps-from m k = record { at = λ s h. k.after s h }

module _ {W A B : Type 0} {P R : Controller → Type 0} where
  pub From-on_result :
      (r : Result A) (f : A → Exec W B) (g : String → Exec W B)
      → ((a : A) → From P (f a) R)
      → ((e : String) → From P (g e) R)
      → From P (on_result r f g) R
  unfolding on_result
  From-on_result (ok a) f g kf kg = kf a
  From-on_result (err e) f g kf kg = kg e

module _ {W : Type 0} {P R : Controller → Type 0} where
  pub From-modify :
      (f : Controller → Controller)
      → ((c : Controller) → P c → R (f c))
      → From {W = W} P (modify f) R
  unfolding modify
  From-modify f k = record { after = λ s h. k s.controller h }

module _ {W A B : Type 0} {R S : Controller → Type 0} where
  From-continue :
      (r : Result A) (f : A → Exec W B) (s : Machine W)
      → ((a : A) → From R (f a) S)
      → ((c : Controller) → R c → S c)
      → R s.controller
      → S ((lift r >>= f) s).1.controller
  unfolding lift ◌>>=◌
  From-continue (ok a) f s k w h = (k a).after s h
  From-continue (err e) f s k w h = w s.controller h

module _ {W A B : Type 0} {P R S : Controller → Type 0} where
  pub From-bind :
      (m : Exec W A) (f : A → Exec W B)
      → From P m R
      → ((a : A) → From R (f a) S)
      → ((c : Controller) → R c → S c)
      → From P (m >>= f) S
  unfolding ◌>>=◌ lift
  From-bind m f km kf w = record {
    after = λ s h. let (r, s') = m s in From-continue r f s' kf w (km.after s h);
  }

module _ {W A B : Type 0} {P R : Controller → Type 0} where
  -- A step that keeps the condition.
  pub From-step :
      (m : Exec W A) (f : A → Exec W B)
      → Keeps P m
      → ((a : A) → From P (f a) R)
      → ((c : Controller) → P c → R c)
      → From P (m >>= f) R
  unfolding ◌>>=◌ lift
  From-step m f km kf w = From-bind m f (From-keeps m (λ c h. h) km) kf w

  -- What was read is known of the controller.
  pub From-gets :
      (g : Controller → A) (f : A → Exec W B)
      → ((a : A) → From (λ c. P c × (g c ≡ a)) (f a) R)
      → From P (gets g >>= f) R
  unfolding ◌>>=◌ gets
  From-gets g f k = record { after = λ s h. (k (g s.controller)).after s (h, refl) }

  -- What was read is that of a controller of which the condition holds.
  pub From-read :
      (g : Controller → A) (f : A → Exec W B)
      → ((c : Controller) → P c → From P (f (g c)) R)
      → From P (gets g >>= f) R
  unfolding ◌>>=◌ gets
  From-read g f k = record { after = λ s h. (k s.controller h).after s h }

  pub From-lift :
      (r : Result A) (f : A → Exec W B)
      → ((a : A) → r ≡ ok a → From P (f a) R)
      → ((c : Controller) → P c → R c)
      → From P (lift r >>= f) R
  unfolding ◌>>=◌ lift
  From-lift (ok a) f k w = record { after = λ s h. (k a refl).after s h }
  From-lift (err e) f k w = record { after = λ s h. w s.controller h }

  pub From-if_some :
      (o : Option A) (f : A → Exec W B) (n : Exec W B)
      → ((a : A) → o ≡ some a → From P (f a) R)
      → (o ≡ none → From P n R)
      → From P (if_some o f n) R
  unfolding if_some
  From-if_some none f n kf kn = kn refl
  From-if_some (some a) f n kf kn = kf a refl

module _ {W A : Type 0} {P Q R : Controller → Type 0} where
  pub From-weaken : (m : Exec W A) → ((c : Controller) → P c → Q c) → From Q m R → From P m R
  From-weaken m w k = record { after = λ s h. k.after s (w s.controller h) }

module _ {W A B : Type 0} {P R : Controller → Type 0} where
  sure_continue :
      (r : Result A) (f : A → Exec W B) (s : Machine W)
      → ((a : A) → From P (f a) R)
      → is_ok r ≡ true
      → P s.controller
      → R ((lift r >>= f) s).1.controller
  unfolding lift ◌>>=◌
  sure_continue (ok a) f s k t h = (k a).after s h
  sure_continue (err e) f s k t h = cc

  -- A step that never fails.
  pub From-sure :
      (m : Exec W A) (f : A → Exec W B)
      → Keeps P m
      → ((s : Machine W) → is_ok (m s).0 ≡ true)
      → ((a : A) → From P (f a) R)
      → From P (m >>= f) R
  unfolding ◌>>=◌ lift
  From-sure m f km t kf = record {
    after = λ s h. let (r, s') = m s in sure_continue r f s' kf (t s) (km.at s h);
  }

module _ {W B : Type 0} {P S : Controller → Type 0} where
  -- A write, and the condition behind it; a write never fails.
  pub From-write :
      (R : Controller → Type 0) (f : Controller → Controller) (g : Unit {0} → Exec W B)
      → ((c : Controller) → P c → R (f c))
      → ((a : Unit {0}) → From R (g a) S)
      → From P (modify f >>= g) S
  unfolding modify ◌>>=◌
  From-write R f g k kg = record {
    after = λ s h. (kg tt).after (record s { controller = f s.controller }) (k s.controller h);
  }

module _ {W A : Type 0} {P R : Controller → Type 0} where
  pub From-ignore : (m : Exec W A) → From P m R → From P (ignore m) R
  unfolding ignore
  From-ignore m k = record { after = λ s h. k.after s h }
