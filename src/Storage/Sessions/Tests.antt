-- ===== src/Storage/Sessions/Tests.antt =====
-- Runs of the properties of sessions.
use re_mazarin.Common.{◌≡◌, some, arith, [], ◌∷◌, refl, here, All, ◌≤◌}
use re_mazarin.Common.Int.{pos, max_i64}
use re_mazarin.Common.Text.{trim_space, itoa_ℕ, split, atoi}
use re_mazarin.Net.{normalize_ip}
use re_mazarin.Storage.{SessionRow}
use re_mazarin.Storage.Sessions.{
  SessionWithGroups, validate_session_by_ip_in_groups, in_groups, is_candidate, latest,
  group_ids_of, group_concat, parse_group_ids,
}
use re_mazarin.Storage.Sessions.ByIp.{Authorises, by_ip_sound, Meets, Answers, candidates}
use re_mazarin.Storage.Sessions.GroupIds.{parse_group_ids-group_concat}
use re_mazarin.Fixtures.{env, storage, session_row}

row-Authorises : Authorises storage (normalize_ip env "1.2.3.4") (pos 2 ∷ []) 100 session_row
unfolding normalize_ip in_groups trim_space
row-Authorises = record {
  row = here refl;
  user_exists = refl;
  same_ip = refl;
  unexpired = omega arith;
  in_group = refl;
}

abbrev answer : SessionWithGroups
answer = record {
  session = record { id = 1; user_id = 1; username = "ann"; expires_at = 1000; created_at = 1 };
  group_ids = pos 2 ∷ [];
}

found : validate_session_by_ip_in_groups env storage "1.2.3.4" (pos 2 ∷ []) 100 ≡ some answer
unfolding validate_session_by_ip_in_groups is_candidate in_groups latest normalize_ip group_ids_of
    group_concat parse_group_ids trim_space itoa_ℕ split atoi
found = refl

by_ip_sound_example :
    (r : SessionRow) × Meets env storage "1.2.3.4" (pos 2 ∷ []) 100 r
    × Answers storage answer r
    × All (λ q. q.expires_at ≤ r.expires_at) (candidates env storage "1.2.3.4" (pos 2 ∷ []) 100)
by_ip_sound_example = by_ip_sound env storage "1.2.3.4" (pos 2 ∷ []) 100 answer found

small : All (λ n. n ≤ max_i64) (12 ∷ 7 ∷ 340 ∷ [])
small = (omega arith, (omega arith, (omega arith, tt)))

parse_group_ids-group_concat_example :
    parse_group_ids (group_concat (12 ∷ 7 ∷ 340 ∷ [])) ≡ pos 12 ∷ pos 7 ∷ pos 340 ∷ []
parse_group_ids-group_concat_example = parse_group_ids-group_concat (12 ∷ 7 ∷ 340 ∷ []) small
