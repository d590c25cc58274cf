-- ===== src/Connect/Methods/Sequence.antt =====
-- The seq of the shared state, and the connection that the status shows (src-tauri/src/connect.rs).
use transonic.Prelude.{
  ℕ, ◌≤◌, arith, String, Bool, true, false, ◌≡◌, refl, sym, subst, Option, none, some, List, [],
  ◌∷◌, ◌==◌, if◌then◌else◌,
}
use transonic.Connect.State.{ConnectRuntimeStatus, ConnectSharedPlaybackState, ConnectRuntimeInner}
use transonic.Connect.Runtime.{
  is_older, begin_restart, set_disabled, set_disconnected, set_connected, set_shared_playback,
}
use transonic.Connect.Methods.{Method, perform, ends_connection, perform_all}
use transonic.Connect.Methods.Link.{Link, changes_link, perform-link, kept_or_equal}
use transonic.Connect.Methods.Branches.{set_shared_playback-branches}

abbrev ShowsSeq : Option ConnectSharedPlaybackState → ℕ → Type 0
ShowsSeq none seq = Unit {0}
ShowsSeq (some shared) seq = seq ≡ shared.seq

-- The writer, the device and the device that is shown, of a status with or without a connection.
abbrev HasWriter : Bool → Option ℕ → Option String → Option String → Type 0
HasWriter false sender device_id shown = Unit {0}
HasWriter true (some sender) (some device_id) shown = shown ≡ some device_id
HasWriter true _ _ shown = ⊥

abbrev LinkHasWriter : ConnectRuntimeStatus → Option ℕ → Option String → Type 0
LinkHasWriter status sender device_id = HasWriter status.connected sender device_id status.device_id

-- The status shows the seq of the shared state, and a connection that is one.
abbrev pub IsConsistent : ConnectRuntimeInner → Type 0
IsConsistent inner =
    ShowsSeq inner.shared_playback inner.status.seq
    × LinkHasWriter inner.status inner.sender inner.device_id

-- The shared state of the second is not older.
abbrev pub NotOlder : Option ConnectSharedPlaybackState → Option ConnectSharedPlaybackState → Type 0
NotOlder none after = Unit {0}
NotOlder (some before) none = ⊥
NotOlder (some before) (some after) = before.seq ≤ after.seq

NotOlder-refl : (shared : Option ConnectSharedPlaybackState) → NotOlder shared shared
NotOlder-refl none = tt
NotOlder-refl (some shared) = omega arith

NotOlder-trans :
    (a b c : Option ConnectSharedPlaybackState) → NotOlder a b → NotOlder b c → NotOlder a c
NotOlder-trans none b c ab bc = tt
NotOlder-trans (some x) none c ab bc = absurd ab
NotOlder-trans (some x) (some y) none ab bc = absurd bc
NotOlder-trans (some x) (some y) (some z) ab bc = omega (arith, ab, bc)

is_older-NotOlder :
    (shared : ConnectSharedPlaybackState) (current : Option ConnectSharedPlaybackState)
    → is_older shared current ≡ false
    → NotOlder current (some shared)
is_older-NotOlder shared none h = tt
is_older-NotOlder shared (some current) h = ground arith

IsConsistent-link :
    (method : Method) (inner : ConnectRuntimeInner)
    → changes_link method ≡ false
    → IsConsistent inner
    → IsConsistent (perform method inner)
IsConsistent-link method inner same =
    subst (λ (link : Link). ShowsSeq link.3 link.0.seq × LinkHasWriter link.0 link.1 link.2)
      (sym (perform-link method inner same))

set_shared_playback-IsConsistent :
    (generation : ℕ) (shared : ConnectSharedPlaybackState) (inner : ConnectRuntimeInner)
    → IsConsistent inner
    → IsConsistent (set_shared_playback generation shared inner).1
set_shared_playback-IsConsistent generation shared inner c =
    set_shared_playback-branches IsConsistent generation shared inner c (λ _. (refl, c.1))

IsConsistent-ends :
    {A : Type 0} (current : Bool) (x y : A × ConnectRuntimeInner)
    → x.1.status.connected ≡ false
    → x.1.shared_playback ≡ none
    → IsConsistent y.1
    → IsConsistent (if current then x else y).1
IsConsistent-ends false x y e f c = c
IsConsistent-ends true x y e f c = (
  subst (λ o. ShowsSeq o x.1.status.seq) (sym f) tt,
  subst (λ b. HasWriter b x.1.sender x.1.device_id x.1.status.device_id) (sym e) tt,
)

-- Every method of the runtime keeps the following: a shared state has the seq that the status shows;
-- and while the status shows a connection, there is a writer for it, and the status shows the device
-- that it stands for.
pub perform-IsConsistent :
    (method : Method) (inner : ConnectRuntimeInner)
    → IsConsistent inner
    → IsConsistent (perform method inner)
unfolding perform begin_restart set_disabled set_disconnected set_connected
perform-IsConsistent Method.begin_restart inner c = (tt, tt)
perform-IsConsistent (Method.set_disabled generation) inner c =
    IsConsistent-ends (inner.generation == generation) _ _ refl refl c
perform-IsConsistent (Method.set_disconnected generation server_url message) inner c =
    IsConsistent-ends (inner.generation == generation) _ _ refl refl c
perform-IsConsistent (Method.set_connected generation server_url device_id sender) inner c =
    kept_or_equal IsConsistent (inner.generation == generation) _ _ (c.0, refl) c
perform-IsConsistent (Method.set_shared_playback generation shared) inner c =
    set_shared_playback-IsConsistent generation shared inner c
perform-IsConsistent Method.take_pull inner c = IsConsistent-link Method.take_pull inner refl c
perform-IsConsistent Method.clear_synced_queue inner c =
    IsConsistent-link Method.clear_synced_queue inner refl c
perform-IsConsistent (Method.begin_queue_resolution generation) inner c =
    IsConsistent-link (Method.begin_queue_resolution generation) inner refl c
perform-IsConsistent (Method.set_devices generation devices) inner c =
    IsConsistent-link (Method.set_devices generation devices) inner refl c
perform-IsConsistent (Method.begin_apply_shared generation seq) inner c =
    IsConsistent-link (Method.begin_apply_shared generation seq) inner refl c
perform-IsConsistent (Method.end_apply_shared seq) inner c =
    IsConsistent-link (Method.end_apply_shared seq) inner refl c
perform-IsConsistent (Method.mark_android_resume_sync_requested now) inner c =
    IsConsistent-link (Method.mark_android_resume_sync_requested now) inner refl c
perform-IsConsistent (Method.record_synced_queue generation ids) inner c =
    IsConsistent-link (Method.record_synced_queue generation ids) inner refl c
perform-IsConsistent (Method.queue_android_resume_report now status) inner c =
    IsConsistent-link (Method.queue_android_resume_report now status) inner refl c
perform-IsConsistent (Method.flush_pending_android_resume_report now generation) inner c =
    IsConsistent-link (Method.flush_pending_android_resume_report now generation) inner refl c
perform-IsConsistent (Method.begin_push command_id user_facing) inner c =
    IsConsistent-link (Method.begin_push command_id user_facing) inner refl c
perform-IsConsistent (Method.fail_push command_id message) inner c =
    IsConsistent-link (Method.fail_push command_id message) inner refl c

NotOlder-link :
    (method : Method) (inner : ConnectRuntimeInner)
    → changes_link method ≡ false
    → NotOlder inner.shared_playback (perform method inner).shared_playback
NotOlder-link method inner same =
    subst (λ (link : Link). NotOlder inner.shared_playback link.3)
      (sym (perform-link method inner same)) (NotOlder-refl inner.shared_playback)

ends-NotOlder :
    {A : Type 0} (current : Bool) (x y : A × ConnectRuntimeInner)
    (before : Option ConnectSharedPlaybackState)
    → current ≡ false
    → NotOlder before y.1.shared_playback
    → NotOlder before (if current then x else y).1.shared_playback
ends-NotOlder false x y before e h = h
ends-NotOlder true x y before e h = cc

perform-NotOlder :
    (method : Method) (inner : ConnectRuntimeInner)
    → ends_connection method inner.generation ≡ false
    → NotOlder inner.shared_playback (perform method inner).shared_playback
unfolding perform ends_connection set_disabled set_disconnected set_connected
perform-NotOlder Method.begin_restart inner lasts = cc
perform-NotOlder (Method.set_disabled generation) inner lasts =
    ends-NotOlder (inner.generation == generation) _ _ inner.shared_playback lasts
      (NotOlder-refl inner.shared_playback)
perform-NotOlder (Method.set_disconnected generation server_url message) inner lasts =
    ends-NotOlder (inner.generation == generation) _ _ inner.shared_playback lasts
      (NotOlder-refl inner.shared_playback)
perform-NotOlder (Method.set_connected generation server_url device_id sender) inner lasts =
    kept_or_equal (λ after. NotOlder inner.shared_playback after.shared_playback)
      (inner.generation == generation) _ _ (NotOlder-refl inner.shared_playback)
      (NotOlder-refl inner.shared_playback)
perform-NotOlder (Method.set_shared_playback generation shared) inner lasts =
    set_shared_playback-branches (λ after. NotOlder inner.shared_playback after.shared_playback)
      generation shared inner (NotOlder-refl inner.shared_playback)
      (is_older-NotOlder shared inner.shared_playback)
perform-NotOlder Method.take_pull inner lasts = NotOlder-link Method.take_pull inner refl
perform-NotOlder Method.clear_synced_queue inner lasts =
    NotOlder-link Method.clear_synced_queue inner refl
perform-NotOlder (Method.begin_queue_resolution generation) inner lasts =
    NotOlder-link (Method.begin_queue_resolution generation) inner refl
perform-NotOlder (Method.set_devices generation devices) inner lasts =
    NotOlder-link (Method.set_devices generation devices) inner refl
perform-NotOlder (Method.begin_apply_shared generation seq) inner lasts =
    NotOlder-link (Method.begin_apply_shared generation seq) inner refl
perform-NotOlder (Method.end_apply_shared seq) inner lasts =
    NotOlder-link (Method.end_apply_shared seq) inner refl
perform-NotOlder (Method.mark_android_resume_sync_requested now) inner lasts =
    NotOlder-link (Method.mark_android_resume_sync_requested now) inner refl
perform-NotOlder (Method.record_synced_queue generation ids) inner lasts =
    NotOlder-link (Method.record_synced_queue generation ids) inner refl
perform-NotOlder (Method.queue_android_resume_report now status) inner lasts =
    NotOlder-link (Method.queue_android_resume_report now status) inner refl
perform-NotOlder (Method.flush_pending_android_resume_report now generation) inner lasts =
    NotOlder-link (Method.flush_pending_android_resume_report now generation) inner refl
perform-NotOlder (Method.begin_push command_id user_facing) inner lasts =
    NotOlder-link (Method.begin_push command_id user_facing) inner refl
perform-NotOlder (Method.fail_push command_id message) inner lasts =
    NotOlder-link (Method.fail_push command_id message) inner refl

-- No method of a run ends the connection of the generation that it finds.
abbrev pub Lasts : List Method → ConnectRuntimeInner → Type 0
Lasts [] inner = Unit {0}
Lasts (method ∷ methods) inner =
    (ends_connection method inner.generation ≡ false) × Lasts methods (perform method inner)

-- From a consistent state, and as long as no method ends the connection, a run of methods leaves a
-- consistent state, whose shared state is there if one was before, and has no smaller seq.
pub perform_all-NotOlder :
    (methods : List Method) (inner : ConnectRuntimeInner)
    → IsConsistent inner
    → Lasts methods inner
    → let after = perform_all methods inner in
      IsConsistent after × NotOlder inner.shared_playback after.shared_playback
unfolding perform_all
perform_all-NotOlder [] inner consistent lasts = (consistent, NotOlder-refl inner.shared_playback)
perform_all-NotOlder (method ∷ methods) inner consistent lasts =
    let step = perform-IsConsistent method inner consistent in
    let rest = perform_all-NotOlder methods (perform method inner) step lasts.1 in
    (
      rest.0,
      NotOlder-trans inner.shared_playback (perform method inner).shared_playback
          (perform_all methods (perform method inner)).shared_playback
          (perform-NotOlder method inner lasts.0) rest.1,
    )
