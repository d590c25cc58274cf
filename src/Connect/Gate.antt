-- ===== src/Connect/Gate.antt =====
-- The queue gate, the choice on the first snapshot, and when a shared state goes to the local backend
-- (src-tauri/src/connect.rs).
use transonic.Prelude.{
  String, Bool, true, false, not, ◌&&◌, ◌||◌, Option, none, some, List, [], ◌∷◌, map, is_empty,
  is_some, str_eq, if◌then◌else◌, ltb, length,
}
use transonic.Models.{SongResponse, ConnectPlaybackState, is_loaded}
use transonic.Controller.Helpers.{option_str_eq}
use transonic.Connect.State.{
  ConnectQueueResolution, ConnectSharedPlaybackState, QueueGate, opened, awaiting_choice, pushing,
  InitialSnapshotAction, apply_server, push_local, ask_user,
}

abbrev pub type_playback_shared_snapshot : String
type_playback_shared_snapshot = "playback.shared.snapshot"

abbrev pub type_playback_shared_updated : String
type_playback_shared_updated = "playback.shared.updated"

abbrev pub update_reason_snapshot : String
update_reason_snapshot = "snapshot"

abbrev pub update_reason_active_offline : String
update_reason_active_offline = "activeOffline"

abbrev pub update_reason_push : String
update_reason_push = "push"

unfoldable pub is_closed : QueueGate → Bool
is_closed opened = false
is_closed (awaiting_choice error) = true
is_closed (pushing command_id user_facing) = true

abbrev pub is_awaiting_choice : QueueGate → Bool
is_awaiting_choice (awaiting_choice error) = true
is_awaiting_choice _ = false

abbrev pub is_pushing : QueueGate → Bool
is_pushing (pushing command_id user_facing) = true
is_pushing _ = false

unfoldable pub resolution : QueueGate → Option ConnectQueueResolution
resolution opened = none
resolution (pushing command_id false) = none
resolution (awaiting_choice error) = some (record { pushing = false; error = error })
resolution (pushing command_id true) = some (record { pushing = true; error = none })

unfoldable pub queue_ids : List SongResponse → List String
queue_ids queue = map (λ (song : SongResponse). song.id) queue

-- `Iterator::eq` on texts.
abbrev pub ids_eq : List String → List String → Bool
ids_eq [] [] = true
ids_eq (a ∷ ids) (b ∷ others) = str_eq a b && ids_eq ids others
ids_eq _ _ = false

abbrev pub is_synced_copy : List SongResponse → Option (List String) → Bool
is_synced_copy local_queue none = false
is_synced_copy local_queue (some ids) = ids_eq (queue_ids local_queue) ids

unfoldable pub classify_initial_snapshot :
    List SongResponse → List SongResponse → Option (List String) → InitialSnapshotAction
unfolding queue_ids
classify_initial_snapshot local_queue server_queue synced_queue_ids =
    if is_empty local_queue
    then apply_server
    else if is_synced_copy local_queue synced_queue_ids
    then apply_server
    else if is_empty server_queue
    then push_local
    else if ids_eq (queue_ids local_queue) (queue_ids server_queue)
    then apply_server
    else ask_user

unfoldable pub should_apply_shared_playback_to_backend :
    String → ConnectSharedPlaybackState → Bool → Bool → Bool → Bool
should_apply_shared_playback_to_backend message_type shared runtime_should_apply is_active_device
      should_preserve =
    let is_snapshot =
      str_eq message_type type_playback_shared_snapshot
      || option_str_eq shared.update_reason (some update_reason_snapshot) in
    if not runtime_should_apply
    then false
    else if option_str_eq shared.update_reason (some update_reason_active_offline)
    then false
    else not (is_snapshot && is_active_device && should_preserve)

unfoldable pub is_android_resume_reportable_state : ConnectPlaybackState → Bool
is_android_resume_reportable_state state =
    is_loaded state.playing_state && elim state.current_index [
      | none ↦ false
      | some current_index ↦ ltb current_index (length state.queue) && is_some state.current_song_id
    ]
