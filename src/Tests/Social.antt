-- ===== src/Tests/Social.antt =====
-- Postcards between two matched users, and reports.
use dalm_backend.MatchViews.{MatchDetailRow, get_match_detail}
use dalm_backend.MatchViews.Sending.{IsMatchOf, announced, send-get_match_detail}
use dalm_backend.Models.{
  Match, MatchParticipant, Photo, PhotoStatus, Postcard, ReportTarget, Uuid, days,
}
use dalm_backend.Postcards.{
  Draft, PostcardRow, get_postcard, last_sender, new_postcard, row_query, seats, send, send_between,
  send_in, send_new,
}
use dalm_backend.Postcards.Again.{send_again}
use dalm_backend.Postcards.Turns.{send_new_again}
use dalm_backend.Prelude.{[], any, inr, none, refl, some, true, ◌∷◌, ◌≡◌}
use dalm_backend.Safety.{ReportRequest, check_target, create_report, follow_up}
use dalm_backend.Safety.Reports.{create_report_again, is_repeated}
use dalm_backend.Store.{Code, Db, Error, api_error, err, ok, request, satisfies_constraints, start}
use dalm_backend.Tests.Fixtures.{empty_db, env, member, members, photo_of}

abbrev side : Uuid → Uuid → MatchParticipant
side user_id photo_id = record {
  match_id = 31;
  user_id = user_id;
  photo_id = photo_id;
  viewed_at = none;
  hidden_at = none;
}

abbrev matched_db : Db
matched_db = record empty_db {
  users = members;
  photos =
      photo_of 11 1 PhotoStatus.matched (some (days 7))
      ∷ photo_of 12 2 PhotoStatus.matched (some (days 7))
      ∷ [];
  matches = record { id = 31; explanation = "닮은 순간"; matched_at = 50 } ∷ [];
  match_participants = side 1 11 ∷ side 2 12 ∷ [];
}

abbrev draft : Draft
draft = record { user_id = 1; match_id = 31; content = "안녕"; idempotency_key = some 7 }

abbrev another : Draft
another = record { user_id = 1; match_id = 31; content = "또"; idempotency_key = none }

abbrev first_card : Postcard
first_card = new_postcard (env 100 1000) draft 2

abbrev first_row : PostcardRow
first_row = record {
  id = 1000;
  match_id = 31;
  sender_id = 1;
  sender_nickname = some "가";
  receiver_id = 2;
  receiver_nickname = some "나";
  content = "안녕";
  read_at = none;
  sent_at = 100;
  moment_thumbnail_url = "u";
}

card_sent : (request (send_new (env 100 1000) draft) matched_db).0 ≡ ok first_row
unfolding send_new send_in send_between seats last_sender get_postcard row_query
    satisfies_constraints
card_sent = refl

abbrev after_send : Db
after_send = (request (send_new (env 100 1000) draft) matched_db).1

send_new_again_example :
    request (send_new (env 200 2000) another) after_send
    ≡ (err (api_error 409 Code.postcard_reply_not_received), after_send)
send_new_again_example =
    send_new_again (env 100 1000) (env 200 2000) draft another matched_db first_row refl refl tt
      card_sent

card_sent_keyed : (request (send (env 100 1000) draft) matched_db).0 ≡ ok first_row
unfolding send send_new send_in send_between seats last_sender get_postcard row_query
    satisfies_constraints
card_sent_keyed = refl

abbrev after_keyed : Db
after_keyed = (request (send (env 100 1000) draft) matched_db).1

send_again_example : request (send (env 300 3000) draft) after_keyed ≡ (ok first_row, after_keyed)
send_again_example =
    send_again (env 100 1000) (env 300 3000) draft draft 7 matched_db first_row refl refl refl
      card_sent_keyed

abbrev photo_report : ReportRequest
photo_report = record {
  reporter_id = 1;
  target_type = ReportTarget.photo;
  target_id = 12;
  reason_code = "SPAM";
  detail = none;
}

abbrev reported_db : Db
reported_db = (request (create_report (env 100 1000) photo_report) matched_db).1

report_made : any (is_repeated photo_report) reported_db.reports ≡ true
unfolding create_report check_target follow_up satisfies_constraints
report_made = refl

target_there : (check_target photo_report (start reported_db)).0 ≡ ok tt
unfolding create_report check_target follow_up satisfies_constraints
target_there = refl

create_report_again_example :
    request (create_report (env 200 2000) photo_report) reported_db
    ≡ (err Error.integrity_error, reported_db)
create_report_again_example =
    create_report_again (env 200 2000) photo_report reported_db report_made target_there

abbrev waiting_draft : Draft
waiting_draft = record { user_id = 2; match_id = 31; content = "안녕"; idempotency_key = none }

abbrev the_match : Match
the_match = record { id = 31; explanation = "닮은 순간"; matched_at = 50 }

abbrev photo_one : Photo
photo_one = photo_of 11 1 PhotoStatus.matched (some (days 7))

abbrev photo_two : Photo
photo_two = photo_of 12 2 PhotoStatus.matched (some (days 7))

is_match :
    IsMatchOf waiting_draft matched_db the_match
      (side 2 12)
      (side 1 11)
      photo_two
      photo_one
      (member 1 "가")
is_match = record {
  one_match = refl;
  two_sides = inr refl;
  own = refl;
  other = refl;
  my_photo = refl;
  partner_photo = refl;
  apart_photos = refl;
  partner_user = refl;
}

send-get_match_detail_example :
    (row : MatchDetailRow) × ((request (get_match_detail 2 31) matched_db).0 ≡ ok (some row))
    × (request (send_new (env 100 1000) waiting_draft) matched_db
        ≡ announced (env 100 1000) waiting_draft 1 row.postcard_permission matched_db)
send-get_match_detail_example =
    send-get_match_detail waiting_draft matched_db the_match (side 2 12) (side 1 11) photo_two
      photo_one (member 1 "가") is_match (env 100 1000)
