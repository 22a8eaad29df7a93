-- ===== src/Delivery/Served.antt =====
-- The delivery requests, one after another.
use rollpig_cloud.Base.{ℕ, ◌≡◌, refl, true, Option, some, List, [], ◌∷◌}
use rollpig_cloud.Store.{Outcome, RoastReservation, Session}
use rollpig_cloud.Events.{EventCreateRequest}
use rollpig_cloud.Delivery.{MutationRequest, locked}
use rollpig_cloud.Delivery.Claim.{ClaimRequest, claim}
use rollpig_cloud.Delivery.Waiting.{NoticeRequest, transition_waiting_notice}
use rollpig_cloud.Delivery.Settle.{OutcomeRequest, frozen, prepare_outcome, save_outcome}
use rollpig_cloud.Delivery.Finish.{mark_sending, release, complete}
use rollpig_cloud.Delivery.Lifecycle.{Runs, has_sent, Runs-sent, Runs-frozen}
use rollpig_cloud.Delivery.Follow.{Follows, moved, IsServed, stays, Follows-trans}
use rollpig_cloud.Delivery.Handlers.{
  save_outcome-IsServed, mark_sending-IsServed, release-IsServed, complete-IsServed,
  transition_waiting_notice-IsServed, prepare_outcome-IsServed,
}
use rollpig_cloud.Delivery.Claimed.{claim-IsServed}

-- A request to the delivery routes, with what the server adds: the time, the day and new tokens.
pub data Request : Type 0 where
  claiming : (uuid : ℕ → ℕ) (now : ℕ) → ClaimRequest → Request
  noticing : (today : ℕ) → NoticeRequest → Request
  preparing_outcome : OutcomeRequest → Request
  saving_outcome : OutcomeRequest → Request
  marking_sending : MutationRequest → Request
  completing : (today now : ℕ) → MutationRequest → Option EventCreateRequest → Request
  releasing : MutationRequest → Request

handle : Request → Session → Session
handle (claiming uuid now req) s = (claim uuid now req s).1
handle (noticing today req) s = (transition_waiting_notice today req s).1
handle (preparing_outcome req) s = (prepare_outcome req s).1
handle (saving_outcome req) s = (save_outcome req s).1
handle (marking_sending req) s = (mark_sending req s).1
handle (completing today now req event) s = (complete today now req event s).1
handle (releasing req) s = (release req s).1

-- The requests in the order in which their transactions commit.
pub serve : List Request → Session → Session
unfolding handle
serve [] s = s
serve (req ∷ reqs) s = serve reqs (handle req s)

handle-IsServed : (req : Request) (s : Session) → IsServed s (handle req s)
unfolding handle
handle-IsServed (claiming uuid now req) s = claim-IsServed uuid now req s
handle-IsServed (noticing today req) s = transition_waiting_notice-IsServed today req s
handle-IsServed (preparing_outcome req) s = prepare_outcome-IsServed req s
handle-IsServed (saving_outcome req) s = save_outcome-IsServed req s
handle-IsServed (marking_sending req) s = mark_sending-IsServed req s
handle-IsServed (completing today now req event) s = complete-IsServed today now req event s
handle-IsServed (releasing req) s = release-IsServed req s

-- Every sequence of delivery requests (claims, notices, outcomes, sendings, completions, releases,
-- refused or not) takes each reservation along moves of the lifecycle, and neither adds nor removes
-- one.
pub serve-IsServed :
    (reqs : List Request) (s : Session) (id : ℕ) → Follows (locked id s) (locked id (serve reqs s))
unfolding serve
serve-IsServed [] s id = stays (locked id s)
serve-IsServed (req ∷ reqs) s id =
    Follows-trans _ (locked id (handle req s)) _ (handle-IsServed req s id)
      (serve-IsServed reqs (handle req s) id)

run_of :
    (r : RoastReservation) (o : Option RoastReservation)
    → Follows (some r) o
    → (r' : RoastReservation) × (o ≡ some r') × Runs r r'
run_of r _ (moved _ r' run) = (r', refl, run)

-- Once a reservation is `sending` or `completed`, no sequence of delivery requests makes it
-- claimable again: it stays in those statuses, under the same claim token.
pub serve-sent :
    (reqs : List Request) (s : Session) (id : ℕ) (r : RoastReservation)
    → locked id s ≡ some r
    → has_sent r.status ≡ true
    → (r' : RoastReservation) × (locked id (serve reqs s) ≡ some r')
      × (has_sent r'.status ≡ true)
      × (r'.claim_token ≡ r.claim_token)
serve-sent reqs s id r e sent =
    let (r', e', run) = run_of r (locked id (serve reqs s)) (rw⁻¹ e (serve-IsServed reqs s id)) in
    let kept = Runs-sent r r' run sent in (r', e', kept.0, kept.1)

-- Once a reservation has an outcome, no sequence of delivery requests changes it.
pub serve-frozen :
    (reqs : List Request) (s : Session) (id : ℕ) (r : RoastReservation) (o : Outcome)
    → locked id s ≡ some r
    → r.outcome_snapshot ≡ some o
    → (r' : RoastReservation) × (locked id (serve reqs s) ≡ some r')
      × (r'.outcome_snapshot ≡ some o)
serve-frozen reqs s id r o e frozen =
    let (r', e', run) = run_of r (locked id (serve reqs s)) (rw⁻¹ e (serve-IsServed reqs s id)) in
    (r', e', Runs-frozen r r' o run frozen)
