-- ===== src/Tests/Gatherings.antt =====
-- Reservations: creating, joining, starting and replying.
use rollpig_cloud.Base.{◌≡◌, refl, true, none, some, [], ◌∷◌, arith}
use rollpig_cloud.Usage.{consume_roast_usage, clamp_charge_settings, find_usage}
use rollpig_cloud.Store.{unforced, ready, RoastReservation, ReservationMessage, Session}
use rollpig_cloud.Reservation.{PrepareRequest}
use rollpig_cloud.Reservation.Sound.{IsSound}
use rollpig_cloud.Reservation.Prepared.{Leaves}
use rollpig_cloud.Reservation.Reconcile.{prepare}
use rollpig_cloud.Reservation.Arrival.{prepare-IsSound}
use rollpig_cloud.Reservation.Collision.{prepare-collides}
use rollpig_cloud.Messages.{BindRequest, ReplyRequest}
use rollpig_cloud.Tests.Data.{env, waiting, shield, with_row}

waiting-IsSound : IsSound (with_row waiting)
waiting-IsSound = record { fired = (refl, tt); within = λ id. ground arith }

-- User 13 joins in.
abbrev joining : PrepareRequest
joining = record {
  attacker_id = 13;
  attacker_name = 0;
  attacker_pig_id = 6;
  target_id = 12;
  target_name = 0;
  group_id = 5;
  delivery_bot_id = 9;
  force_mode = unforced;
  date_str = 100;
  now_ts = some 990;
  cooldown_seconds = none;
  max_charges = none;
  supports_protection_gathering = true;
  protection_gathering_version = 2;
}

prepare-IsSound_example : Leaves IsSound (prepare env joining 990 (with_row waiting))
prepare-IsSound_example = prepare-IsSound env joining 990 (with_row waiting) refl waiting-IsSound

abbrev gathering : RoastReservation
gathering = record waiting { protection_required = 3 }

-- User 12 has come, so the unprotected reservation is ready; then the shield is granted.
abbrev shielded_late : Session
shielded_late = record (with_row (record waiting { status = ready; target_pig_id = 4 })) {
  protections = shield ∷ [];
}

joining-allowed : (consume_roast_usage 13 (some 990) none none 990 []).0.allowed ≡ true
unfolding consume_roast_usage clamp_charge_settings find_usage
joining-allowed = refl

prepare-collides_example : prepare env joining 990 shielded_late ≡ none
prepare-collides_example =
    prepare-collides env joining 990 shielded_late shield
      (record waiting { status = ready; target_pig_id = 4 }) refl refl refl refl joining-allowed
      refl (omega arith) refl refl

-- Message 30 of bot 9 announced the reservation.
abbrev announcement : ReservationMessage
announcement = record {
  bot_id = 9;
  group_id = 5;
  message_id = 30;
  reservation_id = 7;
  date_str = 100;
}

abbrev announced : Session
announced = record (with_row waiting) { messages = announcement ∷ [] }

abbrev rebind : BindRequest
rebind = record { bot_id = 9; group_id = 5; message_id = 31; date_str = 100; reservation_id = 7 }

announced-IsSound : IsSound announced
announced-IsSound = record { fired = (refl, tt); within = waiting-IsSound.within }

abbrev reply : ReplyRequest
reply = record {
  bot_id = 9;
  group_id = 5;
  message_id = 30;
  date_str = 100;
  attacker_id = 11;
  attacker_name = 0;
  protection_gathering_version = 2;
}
