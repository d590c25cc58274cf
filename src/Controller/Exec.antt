-- ===== src/Controller/Exec.antt =====
-- Methods of `&mut self` that may return `Err`: what a method wrote before it failed stays written.
pub mod Keeps
pub mod From
pub mod World
use transonic.Prelude.{String, Bool, true, false, Option, none, some, if◌then◌else◌}
use transonic.Result.{Result, ok, err}
use transonic.Controller.State.{Controller}

pub record Machine (W : Type 0) : Type 0 where
  pub controller : Controller
  pub world : W

abbrev pub Exec : Type 0 → Type 0 → Type 0
Exec W A = Machine W → Result A × Machine W

module _ {W A : Type 0} where
  unfoldable pub pure : A → Exec W A
  pure a s = (ok a, s)

  unfoldable pub raise : String → Exec W A
  raise e s = (err e, s)

  unfoldable pub lift : Result A → Exec W A
  lift r s = (r, s)

  unfoldable pub gets : (Controller → A) → Exec W A
  gets f s = (ok (f s.controller), s)

  -- `match method() { … }`: the failure becomes a value.
  unfoldable pub attempt : Exec W A → Exec W (Result A)
  attempt m s = let (r, s') = m s in (ok r, s')

  -- A call of the outside world that may fail, and one that cannot.
  unfoldable pub call : (W → Result A × W) → Exec W A
  call f s = let (r, w) = f s.world in (r, record s { world = w })

  unfoldable pub ask : (W → A × W) → Exec W A
  ask f s = let (a, w) = f s.world in (ok a, record s { world = w })

  unfoldable pub peek : (W → A) → Exec W A
  peek f s = (ok (f s.world), s)

module _ {W : Type 0} where
  unfoldable pub tell : (W → W) → Exec W (Unit {0})
  tell f s = (ok tt, record s { world = f s.world })

  unfoldable pub modify : (Controller → Controller) → Exec W (Unit {0})
  modify f s = (ok tt, record s { controller = f s.controller })

module _ {W A B : Type 0} where
  abbrev continue : Result A → (A → Exec W B) → Exec W B
  continue (ok a) f s = f a s
  continue (err e) f s = (err e, s)

  infixl 10 ◌>>=◌ ◌>>◌
  unfoldable pub ◌>>=◌ : Exec W A → (A → Exec W B) → Exec W B
  ◌>>=◌ m f s = let (r, s') = m s in continue r f s'

  abbrev pub ◌>>◌ : Exec W A → Exec W B → Exec W B
  m >> n = m >>= λ _. n

  -- `if let Some(a) = o { … } else { … }`.
  unfoldable pub if_some : Option A → (A → Exec W B) → Exec W B → Exec W B
  if_some none f n = n
  if_some (some a) f n = f a

  -- `match r { Ok(a) => …, Err(e) => … }`.
  unfoldable pub on_result : Result A → (A → Exec W B) → (String → Exec W B) → Exec W B
  on_result (ok a) f g = f a
  on_result (err e) f g = g e

module _ {W : Type 0} where
  unfoldable pub when : Bool → Exec W (Unit {0}) → Exec W (Unit {0})
  unfolding pure
  when true m = m
  when false m = pure tt

  -- `let _ = method();`, or a failure that is only logged.
  unfoldable pub ignore : {A : Type 0} → Exec W A → Exec W (Unit {0})
  unfolding attempt pure ◌>>=◌
  ignore m = do attempt m; pure tt
