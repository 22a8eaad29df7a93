-- ===== src/Delivery/Waiting.antt =====
-- routers/roast_reservations.py, `transition_waiting_notice`: the notice that a roast waits for fire.
use rollpig_cloud.Base.{
  ℕ, Bool, true, false, ◌&&◌, Option, none, some, ◌==◌, if◌then◌else◌, is_value, is_set,
}
use rollpig_cloud.Store.{
  is_pending, NoticeStatus, Notice, pending_notice, RoastReservation, Session,
}
use rollpig_cloud.Reservation.{save}
use rollpig_cloud.Delivery.{locked, change}

pub data NoticeAction : Type 0 where
  send sent release : NoticeAction

-- `RoastWaitingNoticeRequest`; the action `send` is the text "sending".
pub record NoticeRequest : Type 0 where
  pub reservation_id : ℕ
  pub claim_token : ℕ
  pub action : NoticeAction

-- The notice after the action, if its state allows the action.
abbrev next_notice : NoticeAction → Notice → Option Notice
next_notice NoticeAction.send notice = elim notice.status [
  | NoticeStatus.processing ↦ some (record notice { status = NoticeStatus.sending })
  | NoticeStatus.sending ↦ some (record notice { status = NoticeStatus.sending })
  | _ ↦ none
]
next_notice NoticeAction.sent notice = elim notice.status [
  | NoticeStatus.sending ↦ some (record notice { status = NoticeStatus.sent })
  | NoticeStatus.sent ↦ some (record notice { status = NoticeStatus.sent })
  | _ ↦ none
]
next_notice NoticeAction.release notice = elim notice.status [
  | NoticeStatus.processing ↦ some pending_notice
  | _ ↦ none
]

abbrev put_notice : RoastReservation → Option Notice → Option RoastReservation
put_notice r none = none
put_notice r (some notice) = some (record r { waiting_notice = some notice })

-- What the request does to the row.
unfoldable pub notice_row : ℕ → ℕ → NoticeAction → RoastReservation → Option RoastReservation
notice_row today token action r = elim r.waiting_notice [
  | none ↦ none
  | some notice ↦
      if is_pending r.status
        && r.date_str == today
        && is_set token
        && is_value notice.claim_token token
      then put_notice r (next_notice action notice)
      else none
]

abbrev commit_notice : Session → Option RoastReservation → Bool × Session
commit_notice s none = (false, s)
commit_notice s (some r) = (true, save r s)

-- POST /waiting-notice: whether the transition is made, and the session.
unfoldable pub transition_waiting_notice : ℕ → NoticeRequest → Session → Bool × Session
unfolding notice_row
transition_waiting_notice today req s =
    commit_notice s
      (change (notice_row today req.claim_token req.action) (locked req.reservation_id s))
