-- ===== src/Connect/FirstSnapshot.antt =====
-- The choice on the first snapshot after connecting (src-tauri/src/connect.rs).
use transonic.Prelude.{
  String, Bool, true, false, ◌&&◌, ◌≡◌, ◌↔◌, refl, ap, sym, ◌∙◌, Option, none, some, List, [], ◌∷◌,
  is_empty, str_eq, eq_iff, if◌then◌else◌,
}
use transonic.Models.{SongResponse}
use transonic.Connect.State.{apply_server, push_local, ask_user}
use transonic.Connect.Gate.{queue_ids, ids_eq, is_synced_copy, classify_initial_snapshot}

and_iff : (a b : Bool) → ((a && b) ≡ true) ↔ ((a ≡ true) × (b ≡ true))
and_iff true b = (λ h. (refl, h), λ h. h.1)
and_iff false b = (λ h. cc, λ h. h.0)

cons_iff :
    (a b : String) (ids others : List String)
    → ((a ∷ ids) ≡ (b ∷ others)) ↔ ((a ≡ b) × (ids ≡ others))
cons_iff a b ids others = (λ e. (cc, cc), λ h. ap (λ x. x ∷ ids) h.0 ∙ ap (λ xs. b ∷ xs) h.1)

ids_eq_iff : (ids others : List String) → (ids_eq ids others ≡ true) ↔ (ids ≡ others)
ids_eq_iff [] [] = (λ _. refl, λ _. refl)
ids_eq_iff [] (b ∷ others) = (λ h. cc, λ h. cc)
ids_eq_iff (a ∷ ids) [] = (λ h. cc, λ h. cc)
ids_eq_iff (a ∷ ids) (b ∷ others) =
    let both = and_iff (str_eq a b) (ids_eq ids others) in
    let cons = cons_iff a b ids others in
    let head = eq_iff a b in
    let rest = ids_eq_iff ids others in
    (
      λ h. let parts = both.0 h in cons.1 (head.0 parts.0, rest.0 parts.1),
      λ e. let parts = cons.0 e in both.1 (head.1 parts.0, rest.1 parts.1),
    )

is_synced_copy_iff :
    (queue : List SongResponse) (synced : Option (List String))
    → (is_synced_copy queue synced ≡ true) ↔ (synced ≡ some (queue_ids queue))
is_synced_copy_iff queue none = (λ h. cc, λ h. cc)
is_synced_copy_iff queue (some ids) =
    let same = ids_eq_iff (queue_ids queue) ids in
    (
      λ h. ap some (sym (same.0 h)),
      λ e. let ids_same : queue_ids queue ≡ ids = cc in same.1 ids_same,
    )

differ : (b : Bool) {P : Type 0} → (b ≡ true) ↔ P → (b ≡ false) ↔ ¬ P
differ true i = (λ h. cc, λ n. absurd (n (i.0 refl)))
differ false i = (λ h p. let e : false ≡ true = i.1 p in cc, λ n. refl)

classified :
    (local_empty synced server_empty same : Bool)
    → (let action =
          if local_empty
          then apply_server
          else if synced
          then apply_server
          else if server_empty
          then push_local
          else if same
          then apply_server
          else ask_user in
        ((action ≡ ask_user)
          ↔ ((local_empty ≡ false) × (synced ≡ false) × (server_empty ≡ false) × (same ≡ false)))
        × ((action ≡ push_local)
            ↔ ((local_empty ≡ false) × (synced ≡ false) × (server_empty ≡ true))))
classified true synced server_empty same = (
  (λ e. cc, λ h. let f : true ≡ false = h.0 in cc),
  (λ e. cc, λ h. let f : true ≡ false = h.0 in cc),
)
classified false true server_empty same = (
  (λ e. cc, λ h. let f : true ≡ false = h.1 in cc),
  (λ e. cc, λ h. let f : true ≡ false = h.1 in cc),
)
classified false false true same =
    ((λ e. cc, λ h. let f : true ≡ false = h.2 in cc), (λ e. (refl, refl, refl), λ h. refl))
classified false false false true = (
  (λ e. cc, λ h. let f : true ≡ false = h.3 in cc),
  (λ e. cc, λ h. let f : false ≡ true = h.2 in cc),
)
classified false false false false =
    ((λ e. (refl, refl, refl, refl), λ h. refl), (λ e. cc, λ h. let f : false ≡ true = h.2 in cc))

is_empty_iff : {A : Type 0} (xs : List A) → (is_empty xs ≡ true) ↔ (xs ≡ [])
is_empty_iff [] = (λ _. refl, λ _. refl)
is_empty_iff (x ∷ xs) = (λ e. cc, λ e. cc)

-- On the first snapshot, the user is asked exactly if both queues have songs, their ids differ, and the
-- local ids are not those that were last taken from the server or accepted by it; and the local queue
-- is pushed without asking exactly if it has songs, they are not those either, and the server has none.
pub classify_initial_snapshot_iff :
    (local_queue server_queue : List SongResponse) (synced : Option (List String))
    → let action = classify_initial_snapshot local_queue server_queue synced in
      let synced_copy = synced ≡ some (queue_ids local_queue) in
      ((action ≡ ask_user) ↔ (
        (¬ (local_queue ≡ []))
        × (¬ synced_copy)
        × (¬ (server_queue ≡ []))
        × (¬ (queue_ids local_queue ≡ queue_ids server_queue))))
      × ((action ≡ push_local) ↔ ((¬ (local_queue ≡ [])) × (¬ synced_copy) × (server_queue ≡ [])))
unfolding classify_initial_snapshot
classify_initial_snapshot_iff local_queue server_queue synced =
    let l = differ (is_empty local_queue) (is_empty_iff local_queue) in
    let y = differ (is_synced_copy local_queue synced) (is_synced_copy_iff local_queue synced) in
    let v = differ (is_empty server_queue) (is_empty_iff server_queue) in
    let w = is_empty_iff server_queue in
    let i =
      differ (ids_eq (queue_ids local_queue) (queue_ids server_queue))
        (ids_eq_iff (queue_ids local_queue) (queue_ids server_queue)) in
    let c =
      classified (is_empty local_queue) (is_synced_copy local_queue synced) (is_empty server_queue)
        (ids_eq (queue_ids local_queue) (queue_ids server_queue)) in
    (
      (
        λ e. let h = c.0.0 e in (l.0 h.0, y.0 h.1, v.0 h.2, i.0 h.3),
        λ h. c.0.1 (l.1 h.0, y.1 h.1, v.1 h.2, i.1 h.3),
      ),
      (λ e. let h = c.1.0 e in (l.0 h.0, y.0 h.1, w.0 h.2), λ h. c.1.1 (l.1 h.0, y.1 h.1, w.1 h.2)),
    )
