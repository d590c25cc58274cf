-- ===== src/Queue/PlayNext/Region.antt =====
-- The region is `[start, start + play_next_queue_len)`, clamped to the queue, where `start` is behind
-- the current entry, or 0 if there is none (docs/playback-queue-semantics.md).
use transonic.Prelude.{
  ℕ, ◌+◌, ◌≤◌, ◌<◌, min, ◌≡◌, ◌↔◌, ◌≢◌, true, false, Option, none, some, arith, u32_mod, usize_max,
  Bool-cases, inl, inr,
}
use transonic.Queue.PlayNext.{
  play_next_start_index, clamped_play_next_queue_len, play_next_end_index, is_play_next_queue_index,
  adjusted_play_next_queue_len_for_current_change,
}

-- The start of the region, without machine arithmetic.
abbrev pub region_start : Option ℕ → ℕ
region_start none = 0
region_start (some i) = i + 1

-- An index is in the play-next region exactly if it lies at or behind the start, less than the
-- play-next length behind it, and in the queue. Queue length and play-next length fit 32 bits.
pub is_play_next_queue_index_iff :
    (queue_len : ℕ) (current : Option ℕ) (n i : ℕ)
    → queue_len < u32_mod
    → n < u32_mod
    → (is_play_next_queue_index queue_len current n i ≡ true)
      ↔ ((region_start current ≤ i) × (i < region_start current + n) × (i < queue_len))
unfolding is_play_next_queue_index
is_play_next_queue_index_iff queue_len none n i hq hn = ground arith
is_play_next_queue_index_iff queue_len (some c) n i hq hn = ground arith

-- The play-next region ends as many entries behind its start as the clamped length says. Queue
-- length and play-next length fit 32 bits.
pub end-eq-start_add_clamped :
    (queue_len : ℕ) (current : Option ℕ) (n : ℕ)
    → queue_len < u32_mod
    → n < u32_mod
    → play_next_end_index queue_len current n
      ≡ play_next_start_index queue_len current + clamped_play_next_queue_len queue_len current n
unfolding play_next_end_index clamped_play_next_queue_len
end-eq-start_add_clamped queue_len none n hq hn = ground arith
end-eq-start_add_clamped queue_len (some c) n hq hn = ground arith

-- The clamped play-next length is at most the given one, and it fits between the start of the
-- region and the end of the queue, for any inputs.
pub clamped_bounds :
    (queue_len : ℕ) (current : Option ℕ) (n : ℕ)
    → (clamped_play_next_queue_len queue_len current n ≤ n)
      × (play_next_start_index queue_len current + clamped_play_next_queue_len queue_len current n
          ≤ queue_len)
unfolding clamped_play_next_queue_len
clamped_bounds queue_len none n = ground arith
clamped_bounds queue_len (some c) n = ground arith

-- The play-next length after a change of the current index to an index of the queue fits between
-- the entry behind that one and the end of the queue. The queue length fits 64 bits.
pub adjusted_bounds :
    (queue_len : ℕ) (previous : Option ℕ) (n : ℕ) (next : ℕ)
    → queue_len ≤ usize_max
    → next < queue_len
    → next + 1 + adjusted_play_next_queue_len_for_current_change queue_len previous n (some next)
      ≤ queue_len
unfolding adjusted_play_next_queue_len_for_current_change
adjusted_bounds queue_len none n next hq h = ground arith
adjusted_bounds queue_len (some p) n next hq h = ground arith

-- For any inputs it is no longer than the queue.
pub adjusted-le :
    (queue_len : ℕ) (previous : Option ℕ) (n : ℕ) (next : Option ℕ)
    → adjusted_play_next_queue_len_for_current_change queue_len previous n next ≤ queue_len
unfolding adjusted_play_next_queue_len_for_current_change
adjusted-le queue_len none n none = ground arith
adjusted-le queue_len (some p) n none = ground arith
adjusted-le queue_len none n (some i) = ground arith
adjusted-le queue_len (some p) n (some i) = ground arith

adjusted_inside :
    (queue_len : ℕ) (previous : Option ℕ) (n next : ℕ)
    → queue_len < u32_mod
    → previous ≢ some next
    → is_play_next_queue_index queue_len previous n next ≡ true
    → next + 1 + adjusted_play_next_queue_len_for_current_change queue_len previous n (some next)
      ≡ play_next_end_index queue_len previous n
unfolding adjusted_play_next_queue_len_for_current_change is_play_next_queue_index
    play_next_end_index
adjusted_inside queue_len none n next hq ne h = ground arith
adjusted_inside queue_len (some p) n next hq ne h = ground arith

adjusted_outside :
    (queue_len : ℕ) (previous : Option ℕ) (n next : ℕ)
    → previous ≢ some next
    → is_play_next_queue_index queue_len previous n next ≡ false
    → adjusted_play_next_queue_len_for_current_change queue_len previous n (some next) ≡ 0
unfolding adjusted_play_next_queue_len_for_current_change is_play_next_queue_index
adjusted_outside queue_len none n next ne h = ground arith
adjusted_outside queue_len (some p) n next ne h = ground arith

end-eq :
    (queue_len : ℕ) (current : Option ℕ) (n : ℕ)
    → queue_len < u32_mod
    → n < u32_mod
    → play_next_end_index queue_len current n
      ≡ min (min (region_start current) queue_len + n) queue_len
unfolding play_next_end_index
end-eq queue_len none n hq hn = ground arith
end-eq queue_len (some c) n hq hn = ground arith

-- When an entry of the play-next region becomes current in place of another, the entries of the
-- region behind it, and no others, are the new region; when an entry outside the region does, the
-- new region is empty. Queue length and play-next length fit 32 bits.
pub adjusted_region :
    (queue_len : ℕ) (previous : Option ℕ) (n next i : ℕ)
    → queue_len < u32_mod
    → n < u32_mod
    → previous ≢ some next
    → let n' = adjusted_play_next_queue_len_for_current_change queue_len previous n (some next) in
      (is_play_next_queue_index queue_len (some next) n' i ≡ true) ↔ (
        (is_play_next_queue_index queue_len previous n next ≡ true)
        × (is_play_next_queue_index queue_len previous n i ≡ true)
        × (next < i))
adjusted_region queue_len previous n next i hq hn ne =
    let n' = adjusted_play_next_queue_len_for_current_change queue_len previous n (some next) in
    let small : n' < u32_mod = omega (arith, adjusted-le queue_len previous n (some next)) in
    let now = is_play_next_queue_index_iff queue_len (some next) n' i hq small in
    let then_next = is_play_next_queue_index_iff queue_len previous n next hq hn in
    let then_i = is_play_next_queue_index_iff queue_len previous n i hq hn in
    elim (Bool-cases (is_play_next_queue_index queue_len previous n next)) [
      | inl e ↦
          let end = adjusted_inside queue_len previous n next hq ne e in
          let last = end-eq queue_len previous n hq hn in
          let inside = then_next.0 e in
          (
            λ h.
                let r = now.0 h in
                (e, then_i.1 (omega arith, omega arith, omega arith), omega arith),
            λ h. let r = then_i.0 h.1 in now.1 (omega arith, omega arith, omega arith),
          )
      | inr e ↦
          let zero_len = adjusted_outside queue_len previous n next ne e in
          (λ h. let r = now.0 h in absurd (omega arith), λ h. cc)
    ]
