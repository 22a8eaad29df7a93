-- ===== src/Delivery/Told.antt =====
-- What the notice of a waiting roast promises.
use rollpig_cloud.Base.{ℕ, ◌≡◌, Bool, true, false, Option, none, some, arith}
use rollpig_cloud.Store.{is_pending, NoticeStatus, Notice, RoastReservation}
use rollpig_cloud.Delivery.Claim.{ClaimRequest, notifies}
use rollpig_cloud.Delivery.Waiting.{NoticeAction, notice_row}

-- The notice may have been sent.
abbrev is_told : Option Notice → Bool
is_told none = false
is_told (some notice) = elim notice.status [
  | NoticeStatus.pending ↦ false
  | NoticeStatus.processing ↦ false
  | NoticeStatus.sending ↦ true
  | NoticeStatus.sent ↦ true
]

-- A transition of a notice that is made is made on a pending reservation of the day, with the
-- notice's token. A notice that may have been sent stays so: it is not handed out by any claim, and
-- the transition keeps its token.
notice_row-told :
    (today token now : ℕ) (action : NoticeAction) (req : ClaimRequest) (r r' : RoastReservation)
    → notice_row today token action r ≡ some r'
    → is_told r.waiting_notice ≡ true
    → (is_pending r.status ≡ true)
      × (r.date_str ≡ today)
      × (is_told r'.waiting_notice ≡ true)
      × (notifies req now r' ≡ false)
unfolding notice_row notifies
notice_row-told today token now NoticeAction.send req r r' e h = ground arith
notice_row-told today token now NoticeAction.sent req r r' e h = ground arith
notice_row-told today token now NoticeAction.release req r r' e h = ground arith
