-- ===== src/Events/Once.antt =====
-- What the record of a reservation's event promises.
use rollpig_cloud.Base.{
  ℕ, ◌≡◌, ◌≢◌, ◌≤◌, refl, inl, inr, true, false, Option, none, some, List, [], ◌∷◌, ◌++◌, get_or,
  is_set, find, any, select, length, arith, Bool-cases, Option-cases, count-append_one, find-passes,
}
use rollpig_cloud.Store.{RoastEvent, Session}
use rollpig_cloud.Activity.{mark_group_active_users}
use rollpig_cloud.Reservation.{ReservationItem, reservation_to_schema, has_id}
use rollpig_cloud.Events.{
  EventCreateRequest, bind_reservation_event, new_event, add_event, of_reservation,
  known_reservation, bound, record_roast_event_with_status,
}

add_event-events :
    (today : ℕ) (req : EventCreateRequest) (s : Session)
    → (add_event today req s).events ≡ s.events ++ new_event (get_or req.date_str today) req ∷ []
unfolding add_event mark_group_active_users
add_event-events today req s = ground arith

-- The events of a reservation in the session.
abbrev pub events_of : ℕ → Session → ℕ
events_of id s = length (select (of_reservation id) s.events)

bound-id :
    (given : Option ReservationItem) (req : EventCreateRequest) (s : Session)
    → ((item : ReservationItem) → given ≡ some item → item.reservation_id ≡ req.reservation_id)
    → (bound (known_reservation given req.reservation_id s) req).reservation_id ≡ req.reservation_id
unfolding bind_reservation_event reservation_to_schema
bound-id none req s h = elim (Option-cases (find (has_id req.reservation_id) s.reservations)) [
  | inl e ↦ rw (e, known_reservation, bound) refl
  | inr (r, e) ↦
      rw (e, known_reservation, bound)
        (ground (arith, find-passes (has_id req.reservation_id) s.reservations r e))
]
bound-id (some item) req s h = h item refl

any-select :
    (id : ℕ) (events : List RoastEvent)
    → any (of_reservation id) events ≡ true
    → length (select (of_reservation id) events) ≢ 0
any-select id [] h = ground arith
any-select id (x ∷ events) h = ground (arith, any-select id events)

none-select :
    (id : ℕ) (events : List RoastEvent)
    → any (of_reservation id) events ≡ false
    → length (select (of_reservation id) events) ≡ 0
none-select id [] h = refl
none-select id (x ∷ events) h = ground (arith, none-select id events)

any-append :
    (id : ℕ) (events : List RoastEvent) (e : RoastEvent)
    → of_reservation id e ≡ true
    → any (of_reservation id) (events ++ e ∷ []) ≡ true
any-append id [] e h = ground arith
any-append id (x ∷ events) e h = ground (arith, any-append id events e h)

new_event-id :
    (today : ℕ) (req : EventCreateRequest)
    → (new_event today req).reservation_id ≡ req.reservation_id
unfolding new_event
new_event-id today req = refl

-- An event of a reservation is recorded once, under the reservation's id: of at most one event
-- before, there is exactly one after, and a repetition finds it, creates none and changes nothing.
-- A reservation that the caller gives is the one that the request names.
pub record_roast_event_with_status-once :
    (today : ℕ) (req : EventCreateRequest) (given : Option ReservationItem) (s : Session)
    → is_set req.reservation_id ≡ true
    → ((item : ReservationItem) → given ≡ some item → item.reservation_id ≡ req.reservation_id)
    → events_of req.reservation_id s ≤ 1
    → let s' = (record_roast_event_with_status today req given s).1 in
      (events_of req.reservation_id s' ≡ 1)
      × (record_roast_event_with_status today req given s' ≡ ((true, false), s'))
unfolding record_roast_event_with_status
record_roast_event_with_status-once today req given s set same few =
    let id = req.reservation_id in
    elim (Bool-cases (any (of_reservation id) s.events)) [
      | inl e ↦
          rw (set, e, record_roast_event_with_status)
            (omega (arith, any-select id s.events e), rw e refl)
      | inr e ↦
          let req' = bound (known_reservation given id s) req in
          let event = new_event (get_or req'.date_str today) req' in
          let rid : of_reservation id event ≡ true =
            ground
              (arith, bound-id given req s same, new_event-id (get_or req'.date_str today) req') in
          let after : any (of_reservation id) (add_event today req' s).events ≡ true =
            rw (add_event-events today req' s) (any-append id s.events event rid) in
          rw (set, e, record_roast_event_with_status)
            (
              rw
                  (
                    add_event-events today req' s,
                    count-append_one (of_reservation id) s.events event,
                    none-select id s.events e,
                    rid,
                  )
                  (omega arith),
              rw after refl,
            )
    ]
