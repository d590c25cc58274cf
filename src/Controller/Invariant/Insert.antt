-- ===== src/Controller/Invariant/Insert.antt =====
-- Coherence of the queue under insertions (src-tauri/src/playback/controller.rs).
use transonic.Prelude.{
  ℕ, zero, suc, ◌+◌, ◌-◌, ◌≤◌, ◌<◌, ◌≡◌, ◌∙◌, ap, subst, sym, refl, arith, Option, none, some, List,
  [], ◌∷◌, ◌++◌, take, drop, length, is_empty, length-append, length-take, length-drop, get_elem?,
  u32_or_max, usize_max, saturating_add_u32,
}
use mathlib.Core.Option
use transonic.Models.{SongResponse, PlaybackStatus}
use transonic.Controller.State.{Controller, Env}
use transonic.Controller.Exec.{Exec, modify}
use transonic.Controller.Exec.Keeps.{Keeps, Keeps-modify, Keeps-bind, keeps_rules}
use transonic.Controller.Exec.From.{
  From, From-if, From-gets, From-read, From-step, From-keeps, From-write, From-bind,
}
use transonic.Controller.Helpers.{current_song_id, clamp_play_next_queue_len}
use transonic.Controller.Status.{with_status}
use transonic.Controller.QueueOps.{
  initialize_queue, insert_at_play_next_end, insert_after_current, append_to_queue,
}
use transonic.Controller.Frame.{QueuePredicate, OnQueue}
use transonic.Controller.Frame.Inert.{
  state-Keeps, clear_gapless_preparation-Keeps, sync_current_position_for_queue_mutation-Keeps,
}
use transonic.Controller.Frame.QueueInert.{finish-Keeps, end_deferred_restore-Keeps}
use transonic.Controller.Invariant.{IndexInRange, Coherent}
use transonic.Controller.Invariant.Queue.{clamped-le, record_queue_change-Coherent}
use transonic.Queue.PlayNext.{play_next_start_index, play_next_end_index}

module _ {ℓ} {A : Type ℓ} where
  pub get_elem?-append_left :
      (xs ys : List A) (i : ℕ) → i < length xs → get_elem? (xs ++ ys) i ≡ get_elem? xs i
  get_elem?-append_left [] ys i h = absurd (omega arith)
  get_elem?-append_left (x ∷ xs) ys zero h = refl
  get_elem?-append_left (x ∷ xs) ys (suc i) h = get_elem?-append_left xs ys i (omega arith)

  pub get_elem?-take :
      (n : ℕ) (xs : List A) (i : ℕ) → i < n → get_elem? (take n xs) i ≡ get_elem? xs i
  get_elem?-take zero xs i h = absurd (omega arith)
  get_elem?-take (suc n) [] i h = refl
  get_elem?-take (suc n) (x ∷ xs) zero h = refl
  get_elem?-take (suc n) (x ∷ xs) (suc i) h = get_elem?-take n xs i (omega arith)

  -- An entry in front of the place of an insertion stays where it is.
  pub get_elem?-insert :
      (n : ℕ) (xs ys : List A) (i : ℕ)
      → i < n
      → i < length xs
      → get_elem? (take n xs ++ (ys ++ drop n xs)) i ≡ get_elem? xs i
  get_elem?-insert n xs ys i h below =
      get_elem?-append_left (take n xs) (ys ++ drop n xs) i (omega (arith, length-take n xs))
      ∙ get_elem?-take n xs i h

  pub length-insert :
      (n : ℕ) (xs ys : List A) → length (take n xs ++ (ys ++ drop n xs)) ≡ length xs + length ys
  length-insert n xs ys = omega (
    arith,
    length-append (take n xs) (ys ++ drop n xs),
    length-append ys (drop n xs),
    length-take n xs,
    length-drop n xs,
  )

-- An insertion at the end of the play-next region keeps the current index, if there is one, in
-- range and the current song, for any play-next length, on a queue of at most `usize::MAX` entries
-- whose current index is in range.
insert_behind_current :
    (queue songs : List SongResponse) (current_index : Option ℕ) (n : ℕ)
    → IndexInRange queue current_index
    → length queue ≤ usize_max
    → IndexInRange
        (take (play_next_end_index (length queue) current_index n) queue
          ++ (songs ++ drop (play_next_end_index (length queue) current_index n) queue))
        current_index
      × (current_song_id queue current_index
          ≡ current_song_id
              (take (play_next_end_index (length queue) current_index n) queue
                ++ (songs ++ drop (play_next_end_index (length queue) current_index n) queue))
              current_index)
unfolding current_song_id play_next_end_index play_next_start_index
insert_behind_current queue songs none n h fits = (tt, refl)
insert_behind_current queue songs (some i) n h fits =
    let at = play_next_end_index (length queue) (some i) n in
    (
      omega (arith, length-insert at queue songs),
      ap (Option.map (λ (e : SongResponse). e.id))
          (sym (get_elem?-insert at queue songs i (omega (arith, fits, h)) h)),
    )

-- A coherent queue that a `Vec` can hold.
abbrev pub Fitting : QueuePredicate
Fitting queue current_index n song_id revision index_map =
    Coherent queue current_index n song_id revision index_map × (length queue ≤ usize_max)

first_songs :
    (song : SongResponse) (songs : List SongResponse)
    → u32_or_max (length (song ∷ songs) - 1) ≤ length (song ∷ songs)
first_songs song songs = ground arith

-- The queue that `status` describes, with `songs` at the end of its play-next region.
abbrev inserted : List SongResponse → PlaybackStatus → List SongResponse → List SongResponse
inserted songs status queue =
    let at =
      play_next_end_index (length status.queue) status.current_index status.play_next_queue_len in
    take at queue ++ (songs ++ drop at queue)

insert_write :
    (songs : List SongResponse) (c : Controller) (status : PlaybackStatus)
    → OnQueue Fitting c
    → status ≡ c.status
    → OnQueue Coherent (with_status (λ st. record st { queue = inserted songs status st.queue }) c)
insert_write songs c status h e =
    let at =
      play_next_end_index (length c.status.queue) c.status.current_index
        c.status.play_next_queue_len in
    let kept =
      insert_behind_current c.status.queue songs c.status.current_index c.status.play_next_queue_len
        h.0.0 h.1 in
    subst
      (λ st.
        OnQueue Coherent
          (with_status (λ st'. record st' { queue = inserted songs st st'.queue }) c))
      (sym e) (kept.0, omega (arith, h.0.1, length-insert at c.status.queue songs), h.0.2 ∙ kept.1)

append_behind :
    (queue songs : List SongResponse) (current_index : Option ℕ)
    → IndexInRange queue current_index
    → IndexInRange (queue ++ songs) current_index
      × (current_song_id queue current_index ≡ current_song_id (queue ++ songs) current_index)
unfolding current_song_id
append_behind queue songs none h = (tt, refl)
append_behind queue songs (some i) h = (
  omega (arith, h, length-append queue songs),
  ap (Option.map (λ (e : SongResponse). e.id)) (sym (get_elem?-append_left queue songs i h)),
)

append_write :
    (c : Controller) (song : SongResponse) (songs : List SongResponse)
    → OnQueue Coherent c
    → OnQueue Coherent (with_status (λ st. record st { queue = st.queue ++ song ∷ songs }) c)
append_write c song songs h =
    let kept = append_behind c.status.queue (song ∷ songs) c.status.current_index h.0 in
    (kept.0, omega (arith, h.1, length-append c.status.queue (song ∷ songs)), h.2 ∙ kept.1)

module _ {W : Type 0} ⦃env : Env W⦄ where
  abbrev Kept : {A : Type 0} → Exec W A → Type 0
  Kept m = Keeps (OnQueue Coherent) m

  initialize_queue-Coherent :
      (song : SongResponse) (songs : List SongResponse) (n : ℕ)
      → n ≤ length (song ∷ songs)
      → Kept (initialize_queue (song ∷ songs) n)
  unfolding initialize_queue
  initialize_queue-Coherent song songs n h =
      Keeps-bind _ _ (Keeps-modify _ (λ c _. (omega arith, h, refl)))
        (λ _. record_queue_change-Coherent [])

  start_queue :
      (song : SongResponse) (songs : List SongResponse) → Kept (initialize_queue (song ∷ songs) 0)
  start_queue song songs = initialize_queue-Coherent song songs 0 (omega arith)

  clamp-Coherent : Kept (modify (with_status clamp_play_next_queue_len))
  unfolding clamp_play_next_queue_len
  clamp-Coherent = Keeps-modify _ (λ c h. (
    h.0,
    clamped-le (length c.status.queue) c.status.current_index c.status.play_next_queue_len,
    h.2,
  ))

  abbrev Ends : {A : Type 0} → QueuePredicate → Exec W A → Type 0
  Ends Q m = From (OnQueue Q) m (OnQueue Coherent)

  extend_play_next :
      (count : ℕ)
      → Kept (
          modify (
            with_status λ st. clamp_play_next_queue_len (record st {
              play_next_queue_len = saturating_add_u32 st.play_next_queue_len (u32_or_max count);
            })))
  unfolding clamp_play_next_queue_len
  extend_play_next count =
      Keeps-modify _
        (λ c h. (h.0, clamped-le (length c.status.queue) c.status.current_index _, h.2))

  insert_at_end : (songs : List SongResponse) → Ends Fitting (insert_at_play_next_end songs)
  unfolding insert_at_play_next_end clamp_play_next_queue_len
  insert_at_end songs =
      From-write (OnQueue Fitting) _ _
        (λ c h. (
          (
            h.0.0,
            clamped-le (length c.status.queue) c.status.current_index c.status.play_next_queue_len,
            h.0.2,
          ),
          h.1,
        ))
        (λ _. From-gets _ _ λ status.
          From-write (OnQueue Coherent) _ _ (λ c h. insert_write songs c status (h.0) (sym h.1))
            (λ _.
              From-keeps _ (λ c h. h)
                (Keeps-bind _ _ (record_queue_change-Coherent _)
                  (λ _. extend_play_next (length songs)))))

  pub append-Coherent :
      (song : SongResponse) (songs : List SongResponse)
      → Kept (modify (with_status λ st. record st { queue = st.queue ++ song ∷ songs }))
  append-Coherent song songs = Keeps-modify _ (λ c h. append_write c song songs h)

  pub append_to_queue-Coherent : (songs : List SongResponse) → Kept (append_to_queue songs)
  unfolding append_to_queue
  append_to_queue-Coherent [] = state-Keeps Coherent
  append_to_queue-Coherent (song ∷ songs) =
      search
        (
          keeps_rules, Keeps-modify, end_deferred_restore-Keeps, clear_gapless_preparation-Keeps,
          sync_current_position_for_queue_mutation-Keeps, start_queue, append-Coherent,
          record_queue_change-Coherent, finish-Keeps,
        )
        depth 60

  pub insert_after_current-Coherent :
      (songs : List SongResponse) → Ends Fitting (insert_after_current songs)
  unfolding insert_after_current
  insert_after_current-Coherent [] = From-keeps _ (λ c h. h.0) (state-Keeps Coherent)
  insert_after_current-Coherent (song ∷ songs) =
      From-step _ _ (end_deferred_restore-Keeps Fitting)
        (λ _.
          From-step _ _ (clear_gapless_preparation-Keeps Fitting)
            (λ _.
              From-step _ _ (sync_current_position_for_queue_mutation-Keeps Fitting)
                (λ _. From-read _ _ λ c hc.
                  From-bind _ _
                    (From-if (is_empty c.status.queue) _ _
                      (λ _.
                        From-keeps _ (λ c h. h.0)
                          (Keeps-bind _ _
                            (initialize_queue-Coherent song songs _ (first_songs song songs))
                            (λ _. clamp-Coherent)))
                      (λ _. insert_at_end (song ∷ songs)))
                    (λ _. From-keeps _ (λ c h. h) (finish-Keeps Coherent)) (λ c h. h))
                (λ c h. h.0))
            (λ c h. h.0))
        (λ c h. h.0)
