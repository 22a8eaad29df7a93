-- ===== src/Tests/Counting.antt =====
-- The keys of two bots, and the counts of their requests.
use rollpig_cloud.Base.{◌≡◌, refl, true, some, List, [], ◌∷◌, ◌||◌, any, All, pos, negsuc}
use rollpig_cloud.KeyUsage.{
  ApiKeyIdentity, UsageTables, add_counters, record_key_request, record_key_mutation_outcome,
}
use rollpig_cloud.KeyUsage.Totals.{
  Call, request, outcome, count_one, count_all, IsBalanced, count_all-IsBalanced,
}
use rollpig_cloud.KeyUsage.Exact.{counters_of, worth_of, count_all-worth}
use rollpig_cloud.Keys.{
  Text, text, NamedKeys, object, split_commas, parse_api_keys, verify_token, add_named, add_legacy,
}
use rollpig_cloud.Keys.Accepted.{
  is_named, is_legacy, entries_of, is_granted, verify_token-configured,
}

abbrev plus : ApiKeyIdentity
plus = record { key_id = 21; name = 1 }

abbrev no_tables : UsageTables
no_tables = record { identities = []; usages = [] }

-- Two requests, one of which fails, the result of the first and an invalid result.
abbrev calls : List Call
calls =
    request 100 plus true 8 200
    ∷ outcome 100 (some plus) 8 (record {
      created_records = pos 1;
      updated_records = pos 0;
      deleted_records = pos 0;
      idempotent_hits = pos 0;
    })
    ∷ request 100 plus true 8 500
    ∷ outcome 100 (some plus) 8 (record {
      created_records = negsuc 0;
      updated_records = pos 0;
      deleted_records = pos 0;
      idempotent_hits = pos 0;
    })
    ∷ []

two_requests : (counters_of 100 21 8 (count_all calls no_tables)).authenticated_requests ≡ 2
unfolding count_all count_one record_key_request record_key_mutation_outcome
two_requests = refl

count_all-worth_example :
    counters_of 100 21 8 (count_all calls no_tables)
    ≡ add_counters (counters_of 100 21 8 no_tables) (worth_of 100 21 8 calls)
count_all-worth_example = count_all-worth 100 21 8 calls no_tables

count_all-IsBalanced_example : All IsBalanced (count_all calls no_tables).usages
count_all-IsBalanced_example = count_all-IsBalanced calls no_tables tt

-- A named key and an old list with the same token and a blank.
abbrev bot_key : NamedKeys
bot_key = object ((b'a' ∷ [], text (b' ' ∷ b'k' ∷ [])) ∷ [])

abbrev old_list : Text
old_list = b'k' ∷ b',' ∷ b' ' ∷ b',' ∷ b'z' ∷ []

abbrev bearer : Text
bearer = 66 ∷ 101 ∷ 97 ∷ 114 ∷ 101 ∷ 114 ∷ []

verify_token-configured_example :
    is_granted (
      verify_token
        ((b'k' ∷ [], record { key_id = b'k' ∷ []; name = b'a' ∷ [] })
          ∷ (b'z' ∷ [], record { key_id = b'z' ∷ []; name = b'z' ∷ [] })
          ∷ [])
        (some (bearer, b'z' ∷ [])))
    ≡ (any (is_named (b'z' ∷ [])) (entries_of bot_key)
        || any (is_legacy (b'z' ∷ [])) (split_commas old_list))
unfolding parse_api_keys add_named add_legacy
verify_token-configured_example =
    verify_token-configured (λ t. t) bot_key old_list bearer (b'z' ∷ [])
      ((b'k' ∷ [], record { key_id = b'k' ∷ []; name = b'a' ∷ [] })
        ∷ (b'z' ∷ [], record { key_id = b'z' ∷ []; name = b'z' ∷ [] })
        ∷ [])
      refl refl
