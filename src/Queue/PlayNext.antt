-- ===== src/Queue/PlayNext.antt =====
-- The play-next region of the queue, as src-tauri/src/playback/controller.rs computes it: the entries
-- `[start, start + play_next_queue_len)` behind the current one, clamped to the queue.
pub mod Region
use transonic.Prelude.{
  ℕ, suc, ◌+◌, ◌-◌, min, Bool, true, false, ◌&&◌, ◌||◌, Option, none, some, ltb, leb, ◌==◌,
  if◌then◌else◌, u32_or_max, saturating_add_usize,
}

-- A `u32` always fits a `usize`, and `current_index + 1` does not reach its maximum.
unfoldable pub play_next_start_index : ℕ → Option ℕ → ℕ
play_next_start_index queue_len none = 0
play_next_start_index queue_len (some current_index) =
    min (saturating_add_usize current_index 1) queue_len

unfoldable pub clamped_play_next_queue_len : ℕ → Option ℕ → ℕ → ℕ
unfolding play_next_start_index
clamped_play_next_queue_len queue_len current_index play_next_queue_len =
    let start = play_next_start_index queue_len current_index in
    let max_len = queue_len - start in min play_next_queue_len (u32_or_max max_len)

-- Where the region ends: `play_next_end_index`, on the parts of the status that it reads.
unfoldable pub play_next_end_index : ℕ → Option ℕ → ℕ → ℕ
unfolding play_next_start_index
play_next_end_index queue_len current_index play_next_queue_len =
    let start = play_next_start_index queue_len current_index in
    min (saturating_add_usize start play_next_queue_len) queue_len

unfoldable pub is_play_next_queue_index : ℕ → Option ℕ → ℕ → ℕ → Bool
unfolding play_next_start_index
is_play_next_queue_index queue_len current_index play_next_queue_len queue_index =
    let start = play_next_start_index queue_len current_index in
    let end = min (saturating_add_usize start play_next_queue_len) queue_len in
    leb start queue_index && ltb queue_index end

abbrev pub option_eq : Option ℕ → Option ℕ → Bool
option_eq none none = true
option_eq (some a) (some b) = a == b
option_eq _ _ = false

-- The last step, for a current index that changes to `next_index`.
abbrev pub consumed_play_next_queue_len : ℕ → ℕ → Option ℕ → ℕ
consumed_play_next_queue_len previous_start previous_end none = 0
consumed_play_next_queue_len previous_start previous_end (some next_index) =
    if ltb next_index previous_start || leb previous_end next_index
    then 0
    else u32_or_max (previous_end - next_index - 1)

unfoldable pub adjusted_play_next_queue_len_for_current_change : ℕ → Option ℕ → ℕ → Option ℕ → ℕ
unfolding play_next_start_index clamped_play_next_queue_len
adjusted_play_next_queue_len_for_current_change queue_len previous previous_len next =
    if previous_len == 0
    then 0
    else if option_eq previous next
    then clamped_play_next_queue_len queue_len next previous_len
    else let previous_start = play_next_start_index queue_len previous in
      let previous_end = min (saturating_add_usize previous_start previous_len) queue_len in
      consumed_play_next_queue_len previous_start previous_end next
