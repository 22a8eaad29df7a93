-- ===== src/Messages.antt =====
-- routers/roast_reservations.py: joining a reservation by a reply to its message, and the count of
-- attempts without a roll.
pub mod Bound
use rollpig_cloud.Base.{
  ℕ, ◌+◌, Bool, true, false, not, ◌&&◌, ◌||◌, Option, none, some, List, [], ◌∷◌, ◌++◌, ltb, ◌==◌,
  if◌then◌else◌, is_some, find, select, update, any,
}
use rollpig_cloud.Store.{
  unforced, is_pending, RoastReservation, DailyRoll, GroupRoll, ReservationMessage,
  UnrolledRoastAttempt, Session, Env,
}
use rollpig_cloud.Progress.{find_roll, present}
use rollpig_cloud.Reservation.{
  PrepareRequest, PrepareResponse, PrepareStatus, answer, reservation_closed, message_not_found,
  self_target, attacker_unrolled, reservation_joined, already_joined,
}
use rollpig_cloud.Reservation.Create.{prepare_reservation}

pub record BindRequest : Type 0 where
  pub bot_id : ℕ
  pub group_id : ℕ
  pub message_id : ℕ
  pub date_str : ℕ
  pub reservation_id : ℕ

abbrev pub is_message : ℕ → ℕ → ℕ → ReservationMessage → Bool
is_message bot group message m = m.bot_id == bot && m.group_id == group && m.message_id == message

-- The reservation of the group and the day.
abbrev pub is_scoped : ℕ → ℕ → ℕ → RoastReservation → Bool
is_scoped id group date r = r.reservation_id == id && r.group_id == group && r.date_str == date

-- A message that is kept when a new one is bound: it is at most seven days old.
abbrev pub is_recent : ℕ → ReservationMessage → Bool
is_recent date m = not (ltb (m.date_str + 7) date)

abbrev pub new_message : BindRequest → ReservationMessage
new_message req = record {
  bot_id = req.bot_id;
  group_id = req.group_id;
  message_id = req.message_id;
  reservation_id = req.reservation_id;
  date_str = req.date_str;
}

-- POST /bind-message
pub bind_message : BindRequest → Session → Bool × Session
bind_message req s =
    let bound = record s {
      messages = select (is_recent req.date_str) s.messages ++ new_message req ∷ [];
    } in
    if is_some (find (is_scoped req.reservation_id req.group_id req.date_str) s.reservations)
    then elim (find (is_message req.bot_id req.group_id req.message_id) s.messages) [
      | some existing ↦ (existing.reservation_id == req.reservation_id, s)
      | none ↦ (true, bound)
    ]
    else (false, s)

pub record ReplyRequest : Type 0 where
  pub bot_id : ℕ
  pub group_id : ℕ
  pub message_id : ℕ
  pub date_str : ℕ
  pub attacker_id : ℕ
  pub attacker_name : ℕ
  pub protection_gathering_version : ℕ

-- The request that a reply stands for; the pig is the one in the ledger.
abbrev pub reply_request : ReplyRequest → RoastReservation → DailyRoll → PrepareRequest
reply_request req r roll = record {
  attacker_id = req.attacker_id;
  attacker_name = req.attacker_name;
  attacker_pig_id = roll.pig_id;
  target_id = r.target_id;
  target_name = r.target_name;
  group_id = req.group_id;
  delivery_bot_id = req.bot_id;
  force_mode = unforced;
  date_str = req.date_str;
  now_ts = none;
  cooldown_seconds = none;
  max_charges = none;
  supports_protection_gathering = true;
  protection_gathering_version = req.protection_gathering_version;
}

abbrev pub is_group_roll : ℕ → ℕ → ℕ → GroupRoll → Bool
is_group_roll date group user g = g.date_str == date && g.group_id == group && g.user_id == user

-- The member shows up in the group, once.
pub register_group_roll : ReplyRequest → DailyRoll → Session → Session
register_group_roll req roll s =
    if any (is_group_roll req.date_str req.group_id req.attacker_id) s.group_rolls
    then s
    else record s {
      group_rolls =
          s.group_rolls
          ++ record {
            date_str = req.date_str;
            group_id = req.group_id;
            user_id = req.attacker_id;
            pig_id = roll.pig_id;
          }
            ∷ [];
    }

abbrev pub has_joined : PrepareStatus → Bool
has_joined reservation_joined = true
has_joined already_joined = true
has_joined _ = false

pub after_reply :
    ReplyRequest
    → DailyRoll
    → Option (PrepareResponse × Session)
    → Option (PrepareResponse × Session)
unfolding register_group_roll
after_reply req roll none = none
after_reply req roll (some (response, s)) =
    some (response, if has_joined response.status then register_group_roll req roll s else s)

-- The reply to the message of an open reservation by someone else, with a roll of the day.
pub reply_to :
    Env → ℕ → ReplyRequest → Option RoastReservation → Session → Option (PrepareResponse × Session)
unfolding after_reply
reply_to env clock req none s = some (answer reservation_closed, s)
reply_to env clock req (some r) s =
    if not (is_pending r.status)
    then some (answer reservation_closed, s)
    else if r.target_id == req.attacker_id
    then some (answer self_target, s)
    else elim (present (find_roll req.date_str req.attacker_id s)) [
      | none ↦ some (answer attacker_unrolled, s)
      | some roll ↦
          after_reply req roll
            (prepare_reservation env (reply_request req r roll) (some r.reservation_id) clock s)
    ]

-- POST /join-by-message; `today` is `rollpig_today()` and `none` an IntegrityError.
pub join_by_message : Env → ℕ → ℕ → ReplyRequest → Session → Option (PrepareResponse × Session)
unfolding reply_to
join_by_message env today clock req s =
    if req.date_str == today
    then elim (find (is_message req.bot_id req.group_id req.message_id) s.messages) [
      | none ↦ some (answer message_not_found, s)
      | some binding ↦
          reply_to env clock req
            (find (is_scoped binding.reservation_id req.group_id req.date_str) s.reservations) s
    ]
    else some (answer reservation_closed, s)

abbrev pub is_attempt : ℕ → ℕ → UnrolledRoastAttempt → Bool
is_attempt date user a = a.date_str == date && a.user_id == user

abbrev pub first_attempt : ℕ → ℕ → UnrolledRoastAttempt
first_attempt date user = record { date_str = date; user_id = user; attempt_count = 1 }

-- POST /unrolled-attempt: the count, and the session.
pub record_unrolled_attempt : ℕ → ℕ → Session → ℕ × Session
record_unrolled_attempt date user s = elim (find (is_attempt date user) s.attempts) [
  | none ↦ (1, record s { attempts = s.attempts ++ first_attempt date user ∷ [] })
  | some row ↦ (
    row.attempt_count + 1,
    record s {
      attempts =
          update (is_attempt date user) (λ a. record a { attempt_count = row.attempt_count + 1 })
            s.attempts;
    },
  )
]
