-- ===== src/Refills/Keyed.antt =====
-- The active keys of the votes, and what writing a row back does to them.
use rollpig_cloud.Base.{
  ℕ, ◌≤◌, ◌≡◌, ap, Bool, true, none, some, ◌==◌, ==_refl, if◌then◌else◌, find, arith, All,
  All-update_to, count, count-replace,
}
use rollpig_cloud.Store.{RefillRequest, Session}
use rollpig_cloud.Refills.{is_voting, has_refill_id, has_active_key, save_refill}

-- A row holds the key of its group and day exactly as long as its vote is open.
abbrev pub IsKeyed : RefillRequest → Type 0
IsKeyed row =
    row.active_key ≡ (if is_voting row.status then some (row.date_str, row.group_id) else none)

-- The rows hold their keys, and no id and no key is held twice.
abbrev pub IsSingle : Session → Type 0
IsSingle s =
    All IsKeyed s.refills
    × ((date group : ℕ) → count (has_active_key date group) s.refills ≤ 1)
    × ((id : ℕ) → count (has_refill_id id) s.refills ≤ 1)

-- A row that was found is written back, and it holds no other key than before.
pub save_refill-IsSingle :
    (r : RefillRequest → Bool) (row row' : RefillRequest) (s : Session)
    → find r s.refills ≡ some row
    → row'.request_id ≡ row.request_id
    → IsKeyed row'
    → ((date group : ℕ)
        → has_active_key date group row' ≡ true
        → has_active_key date group row ≡ true)
    → IsSingle s
    → IsSingle (save_refill row' s)
save_refill-IsSingle r row row' s h same keyed less single =
    let own : has_refill_id row'.request_id row ≡ true =
      ground (arith, same, ==_refl row.request_id) in
    let one = single.2 row'.request_id in
    (
      All-update_to IsKeyed IsKeyed (has_refill_id row'.request_id) (λ _. row') s.refills
          (λ x p k. keyed) (λ x p k. k) single.0,
      (λ date group.
          let q = has_active_key date group in
          let exact =
            count-replace q (has_refill_id row'.request_id) r s.refills row row' h own one in
          let known = single.1 date group in
          let fewer = less date group in ground (arith, exact, known, fewer)),
      (λ id.
          let q = has_refill_id id in
          let exact =
            count-replace q (has_refill_id row'.request_id) r s.refills row row' h own one in
          let alike : q row' ≡ q row = ap (λ z. z == id) same in
          let known = single.2 id in ground (arith, exact, known, alike)),
    )
