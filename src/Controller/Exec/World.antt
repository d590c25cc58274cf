-- ===== src/Controller/Exec/World.antt =====
-- What a method keeps of the outside world, whether it returns or fails: one rule for each way to build
-- a method, and for each call of the outside world.
use transonic.Prelude.{ℕ, String, Bool, true, false, Option, none, some, if◌then◌else◌}
use transonic.Result.{Result, ok, err}
use transonic.Models.{PlaybackStateFile, PlaybackStatus}
use transonic.Controller.State.{Controller, Env, PlaybackBackendLoadRequest, ServerReport}
use transonic.Controller.Exec.{
  Machine, Exec, pure, raise, lift, gets, attempt, call, ask, peek, tell, modify, ◌>>=◌, if_some,
  on_result, when, ignore,
}

pub record Leaves {W A : Type 0} (Q : W → Type 0) (m : Exec W A) : Type 0 where
  pub at : (s : Machine W) → Q s.world → Q (m s).1.world

module _ {W A : Type 0} {Q : W → Type 0} where
  pub Leaves-pure : (a : A) → Leaves {W = W} Q (pure a)
  unfolding pure
  Leaves-pure a = record { at = λ s h. h }

  pub Leaves-raise : (e : String) → Leaves {W = W} {A = A} Q (raise e)
  unfolding raise
  Leaves-raise e = record { at = λ s h. h }

  pub Leaves-lift : (r : Result A) → Leaves {W = W} Q (lift r)
  unfolding lift
  Leaves-lift r = record { at = λ s h. h }

  pub Leaves-gets : (f : Controller → A) → Leaves {W = W} Q (gets f)
  unfolding gets
  Leaves-gets f = record { at = λ s h. h }

  pub Leaves-attempt : (m : Exec W A) → Leaves Q m → Leaves Q (attempt m)
  unfolding attempt
  Leaves-attempt m k = record { at = λ s h. k.at s h }

  pub Leaves-call : (f : W → Result A × W) → ((w : W) → Q w → Q (f w).1) → Leaves Q (call f)
  unfolding call
  Leaves-call f k = record { at = λ s h. k s.world h }

  pub Leaves-ask : (f : W → A × W) → ((w : W) → Q w → Q (f w).1) → Leaves Q (ask f)
  unfolding ask
  Leaves-ask f k = record { at = λ s h. k s.world h }

  pub Leaves-peek : (f : W → A) → Leaves Q (peek f)
  unfolding peek
  Leaves-peek f = record { at = λ s h. h }

  pub Leaves-if :
      (b : Bool) (m n : Exec W A) → Leaves Q m → Leaves Q n → Leaves Q (if b then m else n)
  Leaves-if true m n km kn = km
  Leaves-if false m n km kn = kn

module _ {W : Type 0} {Q : W → Type 0} where
  pub Leaves-tell : (f : W → W) → ((w : W) → Q w → Q (f w)) → Leaves Q (tell f)
  unfolding tell
  Leaves-tell f k = record { at = λ s h. k s.world h }

  pub Leaves-modify : (f : Controller → Controller) → Leaves {W = W} Q (modify f)
  unfolding modify
  Leaves-modify f = record { at = λ s h. h }

  pub Leaves-when : (b : Bool) (m : Exec W (Unit {0})) → Leaves Q m → Leaves Q (when b m)
  unfolding when
  Leaves-when true m k = k
  Leaves-when false m k = record { at = λ s h. h }

module _ {W A B : Type 0} {Q : W → Type 0} where
  Leaves-continue :
      (r : Result A) (f : A → Exec W B) (s : Machine W)
      → ((a : A) → Leaves Q (f a))
      → Q s.world
      → Q ((lift r >>= f) s).1.world
  unfolding lift ◌>>=◌
  Leaves-continue (ok a) f s k h = (k a).at s h
  Leaves-continue (err e) f s k h = h

  pub Leaves-bind :
      (m : Exec W A) (f : A → Exec W B)
      → Leaves Q m
      → ((a : A) → Leaves Q (f a))
      → Leaves Q (m >>= f)
  unfolding ◌>>=◌ lift
  Leaves-bind m f km kf = record {
    at = λ s h. let (r, s') = m s in Leaves-continue r f s' kf (km.at s h);
  }

  pub Leaves-if_some :
      (o : Option A) (f : A → Exec W B) (n : Exec W B)
      → ((a : A) → Leaves Q (f a))
      → Leaves Q n
      → Leaves Q (if_some o f n)
  unfolding if_some
  Leaves-if_some none f n kf kn = kn
  Leaves-if_some (some a) f n kf kn = kf a

  pub Leaves-on_result :
      (r : Result A) (f : A → Exec W B) (g : String → Exec W B)
      → ((a : A) → Leaves Q (f a))
      → ((e : String) → Leaves Q (g e))
      → Leaves Q (on_result r f g)
  unfolding on_result
  Leaves-on_result (ok a) f g kf kg = kf a
  Leaves-on_result (err e) f g kf kg = kg e

module _ {W A : Type 0} {Q : W → Type 0} where
  pub Leaves-ignore : (m : Exec W A) → Leaves Q m → Leaves Q (ignore m)
  unfolding ignore
  Leaves-ignore m k = record { at = λ s h. k.at s h }

-- The answers of the outside world keep a predicate.
pub record EnvLeaves {W : Type 0} (env : Env W) (Q : W → Type 0) : Type 0 where
  pub load : (a0 : PlaybackBackendLoadRequest) (w : W) → Q w → Q (env.load a0 w).1
  pub prepare : (a0 : PlaybackBackendLoadRequest) (w : W) → Q w → Q (env.prepare a0 w).1
  pub activate_prepared : (a0 : Bool) (w : W) → Q w → Q (env.activate_prepared a0 w).1
  pub clear_prepared : (w : W) → Q w → Q (env.clear_prepared w)
  pub update_artwork :
      (a0 : String) (a1 : Option String) (w : W) → Q w → Q (env.update_artwork a0 a1 w).1
  pub seek : (a0 : ℕ) (w : W) → Q w → Q (env.seek a0 w).1
  pub current_position_ms : (w : W) → Q w → Q (env.current_position_ms w).1
  pub current_stream_info : (w : W) → Q w → Q (env.current_stream_info w).1
  pub set_output_device : (a0 : Option String) (w : W) → Q w → Q (env.set_output_device a0 w).1
  pub pause : (w : W) → Q w → Q (env.pause w).1
  pub resume : (w : W) → Q w → Q (env.resume w).1
  pub stop : (w : W) → Q w → Q (env.stop w).1
  pub report_state : (a0 : PlaybackStatus) (w : W) → Q w → Q (env.report_state a0 w)
  pub server_report_state : (a0 : ServerReport) (w : W) → Q w → Q (env.server_report_state a0 w)
  pub server_clear : (w : W) → Q w → Q (env.server_clear w)
  pub sync_queue : (a0 : PlaybackStatus) (w : W) → Q w → Q (env.sync_queue a0 w)
  pub drain_events : (w : W) → Q w → Q (env.drain_events w).1
  pub save : (a0 : PlaybackStateFile) (w : W) → Q w → Q (env.save a0 w)
  pub now : (w : W) → Q w → Q (env.now w).1
  pub spawn_process_native_events_after :
      (a0 : ℕ) (w : W) → Q w → Q (env.spawn_process_native_events_after a0 w)

module _ {W : Type 0} {env : Env W} {Q : W → Type 0} where
  pub EnvLeaves-load :
      EnvLeaves env Q → (a0 : PlaybackBackendLoadRequest) → Leaves Q (call (env.load a0))
  EnvLeaves-load k a0 = Leaves-call (env.load a0) (k.load a0)

  pub EnvLeaves-prepare :
      EnvLeaves env Q → (a0 : PlaybackBackendLoadRequest) → Leaves Q (call (env.prepare a0))
  EnvLeaves-prepare k a0 = Leaves-call (env.prepare a0) (k.prepare a0)

  pub EnvLeaves-activate_prepared :
      EnvLeaves env Q → (a0 : Bool) → Leaves Q (call (env.activate_prepared a0))
  EnvLeaves-activate_prepared k a0 = Leaves-call (env.activate_prepared a0) (k.activate_prepared a0)

  pub EnvLeaves-clear_prepared : EnvLeaves env Q → Leaves Q (tell env.clear_prepared)
  EnvLeaves-clear_prepared k = Leaves-tell env.clear_prepared (k.clear_prepared)

  pub EnvLeaves-update_artwork :
      EnvLeaves env Q
      → (a0 : String) (a1 : Option String) → Leaves Q (call (env.update_artwork a0 a1))
  EnvLeaves-update_artwork k a0 a1 = Leaves-call (env.update_artwork a0 a1) (k.update_artwork a0 a1)

  pub EnvLeaves-seek : EnvLeaves env Q → (a0 : ℕ) → Leaves Q (call (env.seek a0))
  EnvLeaves-seek k a0 = Leaves-call (env.seek a0) (k.seek a0)

  pub EnvLeaves-current_position_ms : EnvLeaves env Q → Leaves Q (call env.current_position_ms)
  EnvLeaves-current_position_ms k = Leaves-call env.current_position_ms (k.current_position_ms)

  pub EnvLeaves-current_stream_info : EnvLeaves env Q → Leaves Q (call env.current_stream_info)
  EnvLeaves-current_stream_info k = Leaves-call env.current_stream_info (k.current_stream_info)

  pub EnvLeaves-set_output_device :
      EnvLeaves env Q → (a0 : Option String) → Leaves Q (call (env.set_output_device a0))
  EnvLeaves-set_output_device k a0 = Leaves-call (env.set_output_device a0) (k.set_output_device a0)

  pub EnvLeaves-pause : EnvLeaves env Q → Leaves Q (call env.pause)
  EnvLeaves-pause k = Leaves-call env.pause (k.pause)

  pub EnvLeaves-resume : EnvLeaves env Q → Leaves Q (call env.resume)
  EnvLeaves-resume k = Leaves-call env.resume (k.resume)

  pub EnvLeaves-stop : EnvLeaves env Q → Leaves Q (call env.stop)
  EnvLeaves-stop k = Leaves-call env.stop (k.stop)

  pub EnvLeaves-report_state :
      EnvLeaves env Q → (a0 : PlaybackStatus) → Leaves Q (tell (env.report_state a0))
  EnvLeaves-report_state k a0 = Leaves-tell (env.report_state a0) (k.report_state a0)

  pub EnvLeaves-server_report_state :
      EnvLeaves env Q → (a0 : ServerReport) → Leaves Q (tell (env.server_report_state a0))
  EnvLeaves-server_report_state k a0 =
      Leaves-tell (env.server_report_state a0) (k.server_report_state a0)

  pub EnvLeaves-server_clear : EnvLeaves env Q → Leaves Q (tell env.server_clear)
  EnvLeaves-server_clear k = Leaves-tell env.server_clear (k.server_clear)

  pub EnvLeaves-sync_queue :
      EnvLeaves env Q → (a0 : PlaybackStatus) → Leaves Q (tell (env.sync_queue a0))
  EnvLeaves-sync_queue k a0 = Leaves-tell (env.sync_queue a0) (k.sync_queue a0)

  pub EnvLeaves-drain_events : EnvLeaves env Q → Leaves Q (ask env.drain_events)
  EnvLeaves-drain_events k = Leaves-ask env.drain_events (k.drain_events)

  pub EnvLeaves-save : EnvLeaves env Q → (a0 : PlaybackStateFile) → Leaves Q (tell (env.save a0))
  EnvLeaves-save k a0 = Leaves-tell (env.save a0) (k.save a0)

  pub EnvLeaves-now : EnvLeaves env Q → Leaves Q (ask env.now)
  EnvLeaves-now k = Leaves-ask env.now (k.now)

  pub EnvLeaves-spawn_process_native_events_after :
      EnvLeaves env Q → (a0 : ℕ) → Leaves Q (tell (env.spawn_process_native_events_after a0))
  EnvLeaves-spawn_process_native_events_after k a0 =
      Leaves-tell (env.spawn_process_native_events_after a0)
        (k.spawn_process_native_events_after a0)

pub ruleset leaves_rules = (
  Leaves-pure, Leaves-raise, Leaves-lift, Leaves-gets, Leaves-attempt, Leaves-peek, Leaves-if,
  Leaves-modify, Leaves-when, Leaves-bind, Leaves-if_some, Leaves-on_result, Leaves-ignore,
  EnvLeaves-load, EnvLeaves-prepare, EnvLeaves-activate_prepared, EnvLeaves-clear_prepared,
  EnvLeaves-update_artwork, EnvLeaves-seek, EnvLeaves-current_position_ms,
  EnvLeaves-current_stream_info, EnvLeaves-set_output_device, EnvLeaves-pause, EnvLeaves-resume,
  EnvLeaves-stop, EnvLeaves-report_state, EnvLeaves-server_report_state, EnvLeaves-server_clear,
  EnvLeaves-sync_queue, EnvLeaves-drain_events, EnvLeaves-save, EnvLeaves-now,
  EnvLeaves-spawn_process_native_events_after,
)
