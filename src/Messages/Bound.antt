-- ===== src/Messages/Bound.antt =====
-- What message bindings and replies promise.
use rollpig_cloud.Base.{
  ℕ, ◌+◌, ◌≤◌, ◌≡◌, refl, ap, ◌∙◌, inl, inr, Bool, true, false, Option, none, some, List, [], ◌∷◌,
  ◌==◌, ==_refl, is_some, get_or, arith, find, select, any, Bool-cases, Option-cases,
  find-append_one, find-update, find-append_none,
}
use rollpig_cloud.Store.{
  is_pending, RoastReservation, DailyRoll, ReservationMessage, UnrolledRoastAttempt, Session, Env,
}
use rollpig_cloud.Progress.{find_roll, present}
use rollpig_cloud.Reservation.{PrepareResponse, participants_of}
use rollpig_cloud.Reservation.Sound.{IsSound}
use rollpig_cloud.Reservation.Prepared.{Leaves, prepare_reservation-IsSound}
use rollpig_cloud.Messages.{
  BindRequest, is_message, is_scoped, is_recent, bind_message, ReplyRequest, reply_request,
  register_group_roll, is_group_roll, has_joined, after_reply, reply_to, join_by_message,
  is_attempt, first_attempt, new_message, record_unrolled_attempt,
}

-- A row that a selection keeps is found as before.
find-select :
    (p keep : ReservationMessage → Bool) (rows : List ReservationMessage) (m : ReservationMessage)
    → find p rows ≡ some m
    → keep m ≡ true
    → find p (select keep rows) ≡ some m
find-select p keep [] m e k = ground arith
find-select p keep (x ∷ rows) m e k = elim (Bool-cases (p x)) [
  | inl h ↦
      let same : some x ≡ some m = rw h at e in
      let k' : keep x ≡ true = ap keep (ap (λ o. get_or o x) same) ∙ k in rw (k', h) same
  | inr h ↦
      let found = find-select p keep rows m (rw h at e) k in
      elim (Bool-cases (keep x)) [ inl k' ↦ rw (k', h) found | inr k' ↦ rw k' found ]
]

find-select-none :
    (p keep : ReservationMessage → Bool) (rows : List ReservationMessage)
    → find p rows ≡ none
    → find p (select keep rows) ≡ none
find-select-none p keep [] e = refl
find-select-none p keep (x ∷ rows) e = ground (arith, find-select-none p keep rows)

-- A message that is bound stays bound to its reservation: no later request binds it to another one,
-- and none that is at most seven days younger removes it.
bind_message-stable :
    (req : BindRequest) (s : Session) (bot group message : ℕ) (m : ReservationMessage)
    → find (is_message bot group message) s.messages ≡ some m
    → req.date_str ≤ m.date_str + 7
    → find (is_message bot group message) (bind_message req s).1.messages ≡ some m
unfolding bind_message
bind_message-stable req s bot group message m e h =
    let kept =
      find-select (is_message bot group message) (is_recent req.date_str) s.messages m e
        (ground (arith, h)) in
    elim (Bool-cases
      (is_some (find (is_scoped req.reservation_id req.group_id req.date_str) s.reservations))) [
        | inr c ↦ rw (c, bind_message) e
        | inl c ↦
            elim (Option-cases
              (find (is_message req.bot_id req.group_id req.message_id) s.messages)) [
                | inr (existing, b) ↦ rw (c, b, bind_message) e
                | inl b ↦
                    rw (c, b, bind_message)
                      (find-append_one (is_message bot group message)
                          (select (is_recent req.date_str) s.messages) _
                        ∙ rw kept refl)
              ]
      ]

-- If a binding is answered with success, the message leads to the reservation of the request.
bind_message-leads :
    (req : BindRequest) (s : Session)
    → (bind_message req s).0 ≡ true
    → (m : ReservationMessage) × (find
          (is_message req.bot_id req.group_id req.message_id)
          (bind_message req s).1.messages
        ≡ some m)
      × (m.reservation_id ≡ req.reservation_id)
unfolding bind_message
bind_message-leads req s h =
    elim (Bool-cases
      (is_some (find (is_scoped req.reservation_id req.group_id req.date_str) s.reservations))) [
        | inr c ↦ let no : false ≡ true = rw (c, bind_message) at h in ground (arith, no)
        | inl c ↦
            elim (Option-cases
              (find (is_message req.bot_id req.group_id req.message_id) s.messages)) [
                | inr (existing, b) ↦
                    let same : (existing.reservation_id == req.reservation_id) ≡ true =
                      rw (c, b, bind_message) at h in
                    rw (c, b, bind_message) (existing, b, ground (arith, same))
                | inl b ↦
                    rw (c, b, bind_message)
                      (
                        new_message req,
                        find-append_none (is_message req.bot_id req.group_id req.message_id)
                              (select (is_recent req.date_str) s.messages) (new_message req ∷ [])
                              (find-select-none (is_message req.bot_id req.group_id req.message_id)
                                (is_recent req.date_str) s.messages b)
                            ∙ ground arith,
                        refl,
                      )
              ]
      ]

register-IsSound :
    (req : ReplyRequest) (roll : DailyRoll) (s : Session)
    → IsSound s
    → IsSound (register_group_roll req roll s)
unfolding register_group_roll
register-IsSound req roll s sound =
    elim (Bool-cases
      (any (is_group_roll req.date_str req.group_id req.attacker_id) s.group_rolls)) [
        | inl e ↦ rw (e, register_group_roll) sound
        | inr e ↦
            rw (e, register_group_roll) (record { fired = sound.fired; within = sound.within })
      ]

after_reply-IsSound :
    (req : ReplyRequest) (roll : DailyRoll) (o : Option (PrepareResponse × Session))
    → Leaves IsSound o
    → Leaves IsSound (after_reply req roll o)
unfolding after_reply
after_reply-IsSound req roll none sound = tt
after_reply-IsSound req roll (some (response, s)) sound =
    elim (Bool-cases (has_joined response.status)) [
      | inl e ↦ rw e (register-IsSound req roll s sound)
      | inr e ↦ rw e sound
    ]

reply_to-IsSound :
    (env : Env) (clock : ℕ) (req : ReplyRequest) (o : Option RoastReservation) (s : Session)
    → participants_of env.uuid s ≡ []
    → IsSound s
    → Leaves IsSound (reply_to env clock req o s)
unfolding reply_to
reply_to-IsSound env clock req none s fresh sound = sound
reply_to-IsSound env clock req (some r) s fresh sound = elim (Bool-cases (is_pending r.status)) [
  | inr e ↦ rw e sound
  | inl e ↦ rw e (elim (Bool-cases (r.target_id == req.attacker_id)) [
    | inl e' ↦ rw e' sound
    | inr e' ↦ rw e' (elim (Option-cases (present (find_roll req.date_str req.attacker_id s))) [
      | inl e'' ↦ rw e'' sound
      | inr (roll, e'') ↦ rw e'' (
          after_reply-IsSound req roll _ (
            prepare_reservation-IsSound env (reply_request req r roll) (some r.reservation_id) clock
              s fresh sound))
    ])
  ])
]

-- A reply keeps the session sound, or is rolled back: no reservation leaves `pending` without its
-- fire and no party grows beyond twelve. The session was sound and the new id is not in use.
join_by_message-IsSound :
    (env : Env) (today clock : ℕ) (req : ReplyRequest) (s : Session)
    → participants_of env.uuid s ≡ []
    → IsSound s
    → Leaves IsSound (join_by_message env today clock req s)
unfolding join_by_message
join_by_message-IsSound env today clock req s fresh sound =
    elim (Bool-cases (req.date_str == today)) [
      | inr e ↦ rw e sound
      | inl e ↦
          rw e
            (elim (Option-cases
              (find (is_message req.bot_id req.group_id req.message_id) s.messages)) [
                | inl e' ↦ rw e' sound
                | inr (binding, e') ↦ rw e' (
                    reply_to-IsSound env clock req
                      (find (is_scoped binding.reservation_id req.group_id req.date_str)
                        s.reservations)
                      s fresh sound)
              ])
    ]

abbrev count_of : Option UnrolledRoastAttempt → ℕ
count_of none = 0
count_of (some row) = row.attempt_count

-- The attempts of a user on a day, as the session counts them.
abbrev attempts_of : ℕ → ℕ → Session → ℕ
attempts_of date user s = count_of (find (is_attempt date user) s.attempts)

first_attempt-found :
    (date user : ℕ)
    → find (is_attempt date user) (first_attempt date user ∷ []) ≡ some (first_attempt date user)
first_attempt-found date user = rw (==_refl date, ==_refl user) refl

-- Each attempt counts one, and the answer is what the session then holds.
record_unrolled_attempt-counts :
    (date user : ℕ) (s : Session)
    → let (count, s') = record_unrolled_attempt date user s in
      (count ≡ attempts_of date user s + 1) × (attempts_of date user s' ≡ count)
unfolding record_unrolled_attempt
record_unrolled_attempt-counts date user s =
    elim (Option-cases (find (is_attempt date user) s.attempts)) [
      | inl e ↦
          rw (e, record_unrolled_attempt)
            (
              refl,
              ap count_of (
                  find-append_none (is_attempt date user) s.attempts (first_attempt date user ∷ [])
                    e
                  ∙ first_attempt-found date user),
            )
      | inr (row, e) ↦
          rw (e, record_unrolled_attempt)
            (
              refl,
              ap count_of (
                  find-update (is_attempt date user)
                    (λ a. record a { attempt_count = row.attempt_count + 1 }) s.attempts row
                    (λ x p. p) e),
            )
    ]
