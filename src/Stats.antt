-- ===== src/Stats.antt =====
-- services/roast_statistics.py: how often each user was roasted.
pub mod Counted
pub mod Partial
use rollpig_cloud.Base.{
  ℕ, ◌+◌, Bool, true, false, not, ◌&&◌, ◌||◌, List, [], ◌∷◌, ◌==◌, if◌then◌else◌, is_set, any,
  contains, select,
}
use rollpig_cloud.Store.{EventType, success, backfire, bot_backfire, other_event}

-- An event as the statistics read it; `is_unrolled` is `special_reason == "unrolled"`.
pub record StatEvent : Type 0 where
  pub date_str : ℕ
  pub event_id : ℕ
  pub event_type : EventType
  pub attacker : ℕ
  pub target : ℕ
  pub group_id : ℕ
  pub backfire_victim_ids : List ℕ
  pub backfire_victim_id : ℕ
  pub is_unrolled : Bool

pub data SpecialKind : Type 0 where
  ordinary bot unrolled : SpecialKind

-- An entry of `special_seen`.
pub record SpecialKey : Type 0 where
  pub date_str : ℕ
  pub group_id : ℕ
  pub victim : ℕ
  pub kind : SpecialKind

abbrev same_kind : SpecialKind → SpecialKind → Bool
same_kind ordinary ordinary = true
same_kind bot bot = true
same_kind unrolled unrolled = true
same_kind _ _ = false

abbrev pub special_eq : SpecialKey → SpecialKey → Bool
special_eq a b =
    a.date_str == b.date_str
    && a.group_id == b.group_id
    && a.victim == b.victim
    && same_kind a.kind b.kind

-- The local variables of the loop: the counts are the list of the counted users, each as often as
-- it counts.
pub record Tally : Type 0 where
  pub counts : List ℕ
  pub special_seen : List SpecialKey
  pub event_seen : List (ℕ × ℕ)

abbrev pub empty_tally : Tally
empty_tally = record { counts = []; special_seen = []; event_seen = [] }

-- `dict.fromkeys(victims)`: the first occurrence of each.
abbrev pub distinct : List ℕ → List ℕ
distinct [] = []
distinct (x ∷ xs) = x ∷ select (λ y. not (x == y)) (distinct xs)

-- `event.get("backfire_victim_ids") or [event.get("backfire_victim_id") or attacker]`
abbrev pub backfire_victims : StatEvent → List ℕ
backfire_victims e = elim e.backfire_victim_ids [
  | [] ↦ (if is_set e.backfire_victim_id then e.backfire_victim_id else e.attacker) ∷ []
  | ◌∷◌ x xs ↦ x ∷ xs
]

-- The users that the event counts for; an event that the loop skips has none.
unfoldable pub victims_of : StatEvent → List ℕ
victims_of e = elim e.event_type [
  | success ↦ if is_set e.target && not (e.target == e.attacker) then e.target ∷ [] else []
  | backfire ↦ distinct (select is_set (backfire_victims e))
  | bot_backfire ↦ distinct (select is_set (backfire_victims e))
  | other_event n ↦ []
]

unfoldable pub kind_of : StatEvent → SpecialKind
kind_of e = elim e.event_type [
  | success ↦ ordinary
  | backfire ↦ if e.is_unrolled then unrolled else ordinary
  | bot_backfire ↦ bot
  | other_event n ↦ ordinary
]

abbrev pub is_special : SpecialKind → Bool
is_special ordinary = false
is_special _ = true

abbrev pub special_key : StatEvent → ℕ → SpecialKey
special_key e victim = record {
  date_str = e.date_str;
  group_id = e.group_id;
  victim = victim;
  kind = kind_of e;
}

-- One victim of an event; a special penalty counts once for a day, a group and a kind.
unfoldable pub count_victim : StatEvent → ℕ → Tally → Tally
unfolding kind_of
count_victim e victim t =
    let key = special_key e victim in
    if is_special (kind_of e)
    then if any (special_eq key) t.special_seen
      then t
      else record t { counts = victim ∷ t.counts; special_seen = key ∷ t.special_seen }
    else record t { counts = victim ∷ t.counts }

abbrev pub count_each : StatEvent → List ℕ → Tally → Tally
count_each e [] t = t
count_each e (victim ∷ victims) t = count_each e victims (count_victim e victim t)

abbrev pub is_event : StatEvent → ℕ × ℕ → Bool
is_event e key = e.date_str == key.0 && e.event_id == key.1

-- One round of the loop: an event with an id counts once.
unfoldable pub count_event : StatEvent → Tally → Tally
unfolding count_victim victims_of
count_event e t =
    let marked = record t { event_seen = (e.date_str, e.event_id) ∷ t.event_seen } in
    if is_set e.event_id
    then if any (is_event e) t.event_seen then t else count_each e (victims_of e) marked
    else count_each e (victims_of e) t

abbrev pub count_all : List StatEvent → Tally → Tally
count_all [] t = t
count_all (e ∷ events) t = count_all events (count_event e t)

-- `counts[user]`
abbrev pub occurrences : ℕ → List ℕ → ℕ
occurrences user [] = 0
occurrences user (x ∷ xs) = (if user == x then 1 else 0) + occurrences user xs

unfoldable pub count_roasted_users : List StatEvent → ℕ → ℕ
unfolding count_event
count_roasted_users events user = occurrences user (count_all events empty_tally).counts
