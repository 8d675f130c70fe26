-- ===== src/Moments.antt =====
-- app/repositories.py `HomeRepository.list_moments` and `count_moments`: the photos of a user with
-- the matches they are in.
use mathlib.Core.Option
use dalm_backend.Matching.{are_blocked}
use dalm_backend.Models.{
  Date, DateTime, Match, MatchParticipant, Photo, PhotoStatus, Uuid, embedding_status_eq,
  notification_type_eq, photo_status_eq, report_target_eq, term_type_eq, user_status_eq,
  validation_status_eq,
}
use dalm_backend.Pages.{Cursor, behind}
use dalm_backend.Photos.{newest_first}
use dalm_backend.Postcards.{Permission, last_sender, resolve_postcard_permission}
use dalm_backend.Prelude.{
  Bool, List, Option, String, [], false, for_each, if◌then◌else◌, is_none, is_some, leb, length,
  ltb, nat_eq, none, not, option_eq, or_null, order_by, select, some, string_eq, take, ℕ, ◌&&◌, ◌+◌,
  ◌==◌, ◌||◌, ◌∷◌,
}
use dalm_backend.Store.{Action, Db, Error, Result, err, lift, ok, query, ◌>>=◌}

pub record MomentRow : Type 0 where
  pub photo_id : Uuid
  pub image_url : String
  pub ai_title : Option String
  pub status : PhotoStatus
  pub registered_at : DateTime
  pub search_expires_at : Option DateTime
  pub match_id : Option Uuid
  pub matched_at : Option DateTime
  pub hidden : Bool
  pub postcard_permission : Option Permission

pub record MomentCounts : Type 0 where
  pub searching : ℕ
  pub matched : ℕ
  pub expired : ℕ

pub data MomentFilter : Type 0 where
  all_moments hidden_moments : MomentFilter
  of_status : PhotoStatus → MomentFilter

-- A row of the query: the photo, and what its outer joins give.
pub record JoinedMoment : Type 0 where
  pub photo : Photo
  pub participant : Option MatchParticipant
  pub partner : Option MatchParticipant
  pub partner_photo : Option Photo
  pub joined_match : Option Match
  pub is_blocked : Bool
  pub last : Option Uuid

abbrev pub own_sides : Uuid → Photo → Db → List (Option MatchParticipant)
own_sides user_id p db =
    or_null (select (λ m. m.photo_id == p.id && m.user_id == user_id) db.match_participants)

abbrev pub partner_sides : Uuid → Option MatchParticipant → Db → List (Option MatchParticipant)
partner_sides user_id none db = none ∷ []
partner_sides user_id (some m) db =
    or_null
      (select (λ n. n.match_id == m.match_id && not (n.user_id == user_id)) db.match_participants)

abbrev pub photos_of : Option MatchParticipant → Db → List (Option Photo)
photos_of none db = none ∷ []
photos_of (some m) db = or_null (select (λ p. p.id == m.photo_id) db.photos)

abbrev pub matches_of : Option MatchParticipant → Db → List (Option Match)
matches_of none db = none ∷ []
matches_of (some m) db = or_null (select (λ x. x.id == m.match_id) db.matches)

-- A comparison with a null column holds of no block.
abbrev pub blocked_with : Uuid → Option MatchParticipant → Db → Bool
blocked_with user_id none db = false
blocked_with user_id (some n) db = are_blocked user_id n.user_id db

abbrev pub last_sender_in : Option MatchParticipant → Db → Option Uuid
last_sender_in none db = none
last_sender_in (some m) db = last_sender m.match_id db

unfoldable pub join_moment : Uuid → Db → Photo → List JoinedMoment
join_moment user_id db p = for_each (own_sides user_id p db) λ m.
    for_each (partner_sides user_id m db) λ n. for_each (photos_of n db) λ q.
      for_each (matches_of m db) λ x.
        record {
          photo = p;
          participant = m;
          partner = n;
          partner_photo = q;
          joined_match = x;
          is_blocked = blocked_with user_id n db;
          last = last_sender_in m db;
        }
        ∷ []

abbrev pub is_hidden : Option MatchParticipant → Bool
is_hidden none = false
is_hidden (some m) = is_some m.hidden_at

abbrev pub passes_filter : MomentFilter → Photo → Option MatchParticipant → Bool
passes_filter MomentFilter.all_moments p m = not (is_hidden m)
passes_filter MomentFilter.hidden_moments p m = is_hidden m
passes_filter (MomentFilter.of_status s) p m = p.status == s && not (is_hidden m)

-- The photos that a user's moments are made of.
abbrev pub is_moment : Uuid → Date → Bool → Photo → Bool
is_moment user_id today exclude_today p =
    p.user_id == user_id
    && is_none p.deleted_at
    && (not exclude_today || not (p.registered_date == today))

abbrev pub moment_newest : JoinedMoment → JoinedMoment → Bool
moment_newest x y = newest_first x.photo y.photo

-- `(a, p) <= (b, q)` on a registration time and a photo's identifier, which fails on nulls.
abbrev pub is_first : Photo → Option Photo → Result Bool
is_first p none = err Error.type_error
is_first p (some q) =
    ok (ltb p.registered_at q.registered_at || p.registered_at == q.registered_at && leb p.id q.id)

abbrev pub moment_permission : Uuid → JoinedMoment → Result (Option Permission)
moment_permission user_id x =
    if x.photo.status == PhotoStatus.matched && is_some x.participant
    then elim (is_first x.photo x.partner_photo) [
      | ok first ↦ ok (some (resolve_postcard_permission x.is_blocked first x.last user_id))
      | err e ↦ err e
    ]
    else ok none

abbrev pub moment_row : JoinedMoment → Option Permission → MomentRow
moment_row x permission = record {
  photo_id = x.photo.id;
  image_url = x.photo.image_url;
  ai_title = x.photo.ai_title;
  status = x.photo.status;
  registered_at = x.photo.registered_at;
  search_expires_at = x.photo.search_expires_at;
  match_id = Option.map (λ m. m.match_id) x.participant;
  matched_at = Option.map (λ m. m.matched_at) x.joined_match;
  hidden = is_hidden x.participant;
  postcard_permission = permission;
}

unfoldable pub moment_rows : Uuid → List JoinedMoment → Result (List MomentRow)
moment_rows user_id [] = ok []
moment_rows user_id (x ∷ xs) = elim (moment_permission user_id x) [
  | err e ↦ err e
  | ok permission ↦ elim (moment_rows user_id xs) [
    | err e ↦ err e
    | ok rows ↦ ok (moment_row x permission ∷ rows)
  ]
]

-- The rows of the query of `list_moments`, before its order and limit.
unfoldable pub moments_joined :
    Uuid → MomentFilter → Date → Bool → Option Cursor → Db → List JoinedMoment
unfolding join_moment
moments_joined user_id filter today exclude_today cursor db =
    select (λ x. passes_filter filter x.photo x.participant)
      (for_each
        (select (λ p. is_moment user_id today exclude_today p && behind cursor p.registered_at p.id)
          db.photos)
        (join_moment user_id db))

unfoldable pub list_moments :
    Uuid → MomentFilter → Date → Bool → ℕ → Option Cursor → Action (List MomentRow)
unfolding moments_joined moment_rows
list_moments user_id filter today exclude_today size cursor = do
  rows ← query λ db.
      take (size + 1)
        (order_by moment_newest (moments_joined user_id filter today exclude_today cursor db))
  lift (moment_rows user_id rows)

-- The rows of the query of `count_moments`: the photos with the user's own side of their match.
unfoldable pub counted : Uuid → Date → Bool → Db → List Photo
counted user_id today exclude_today db =
    for_each (select (is_moment user_id today exclude_today) db.photos)
      λ p. for_each (select (λ m. not (is_hidden m)) (own_sides user_id p db)) λ m. p ∷ []

abbrev pub count_status : PhotoStatus → List Photo → ℕ
count_status s ps = length (select (λ p. p.status == s) ps)

unfoldable pub count_moments : Uuid → Date → Bool → Action MomentCounts
unfolding counted
count_moments user_id today exclude_today = query λ db.
    let rows = counted user_id today exclude_today db in
    record {
      searching = count_status PhotoStatus.searching rows;
      matched = count_status PhotoStatus.matched rows;
      expired = count_status PhotoStatus.expired rows;
    }
