-- ===== src/MatchViews.antt =====
-- app/repositories.py `HomeRepository`: a match as its two users see, hide and view it.
pub mod Sending
use mathlib.Core.Option
use dalm_backend.Matching.{are_blocked}
use dalm_backend.Models.{
  Date, DateTime, Match, MatchParticipant, Photo, Report, ReportTarget, User, Uuid,
  embedding_status_eq, notification_type_eq, photo_status_eq, report_target_eq, term_type_eq,
  user_status_eq, validation_status_eq,
}
use dalm_backend.Postcards.{Permission, last_sender, resolve_postcard_permission}
use dalm_backend.Prelude.{
  Bool, List, Option, String, [], any, for_each, head?, if◌then◌else◌, is_none, is_some, leb,
  length, ltb, nat_eq, none, not, option_eq, order_by, select, some, string_eq, update_where, ℕ,
  ◌&&◌, ◌==◌, ◌||◌, ◌∷◌,
}
use dalm_backend.Safety.{shown_name}
use dalm_backend.Store.{
  Action, Db, Env, commit, modify, pure, query, scalar_one_or_none, ◌>>=◌, ◌>>◌,
}

pub record MatchCardRow : Type 0 where
  pub match_id : Uuid
  pub my_photo_id : Uuid
  pub my_image_url : String
  pub partner_image_url : String
  pub ai_title : String
  pub matched_at : DateTime

pub record MatchDetailRow : Type 0 where
  pub match_id : Uuid
  pub my_photo_id : Uuid
  pub my_image_url : String
  pub my_registered_at : DateTime
  pub my_deleted : Bool
  pub partner_photo_id : Uuid
  pub partner_image_url : String
  pub partner_registered_at : DateTime
  pub partner_deleted : Bool
  pub partner_id : Uuid
  pub partner_nickname : String
  pub explanation : String
  pub matched_at : DateTime
  pub hidden : Bool
  pub postcard_permission : Permission

-- A match with the user's own side and a partner's, and the photos of both.
pub record Card : Type 0 where
  pub card_match : Match
  pub mine : MatchParticipant
  pub my_photo : Photo
  pub partner : MatchParticipant
  pub partner_photo : Photo

abbrev pub partners : Uuid → Uuid → Db → List MatchParticipant
partners match_id user_id db =
    select (λ m. m.match_id == match_id && not (m.user_id == user_id)) db.match_participants

abbrev pub photos_under : Uuid → Db → List Photo
photos_under id db = select (λ p. p.id == id) db.photos

-- The joins of `get_match_card_for_photo` and `get_next_unviewed_match`.
unfoldable pub cards : Uuid → (Card → Bool) → Db → List Card
cards user_id test db = select test (
    for_each db.matches λ x.
      for_each (select (λ m. m.match_id == x.id) db.match_participants) λ mine.
        for_each (photos_under mine.photo_id db) λ my_photo.
          for_each (partners x.id user_id db) λ partner.
            for_each (photos_under partner.photo_id db) λ partner_photo.
              record {
                card_match = x;
                mine = mine;
                my_photo = my_photo;
                partner = partner;
                partner_photo = partner_photo;
              }
              ∷ [])

abbrev pub card_row : Card → MatchCardRow
card_row c = record {
  match_id = c.card_match.id;
  my_photo_id = c.my_photo.id;
  my_image_url = c.my_photo.image_url;
  partner_image_url = c.partner_photo.image_url;
  ai_title = c.card_match.explanation;
  matched_at = c.card_match.matched_at;
}

unfoldable pub get_match_card_for_photo : Uuid → Uuid → Action (Option MatchCardRow)
unfolding cards
get_match_card_for_photo user_id photo_id = do
  rows ← query (cards user_id (λ c. c.mine.user_id == user_id && c.mine.photo_id == photo_id))
  row ← scalar_one_or_none rows
  pure (Option.map card_row row)

-- The reports of the user on the partner or on the partner's photo.
abbrev pub is_reported : Uuid → Card → Report → Bool
is_reported user_id c r =
    r.reporter_id == user_id
    && (r.target_type == ReportTarget.photo && r.target_id == c.partner.photo_id
        || r.target_type == ReportTarget.user && r.target_id == c.partner.user_id)

-- The filters of `get_next_unviewed_match`.
abbrev pub is_unviewed : Uuid → Date → Db → Card → Bool
is_unviewed user_id today db c =
    c.mine.user_id == user_id
    && is_none c.mine.viewed_at
    && is_none c.mine.hidden_at
    && not (c.my_photo.registered_date == today)
    && is_none c.my_photo.deleted_at
    && is_none c.partner_photo.deleted_at
    && not (are_blocked user_id c.partner.user_id db)
    && not (any (is_reported user_id c) db.reports)

abbrev pub matched_first : Card → Card → Bool
matched_first c d = leb c.card_match.matched_at d.card_match.matched_at

-- The match that was made first, and the number of all.
unfoldable pub get_next_unviewed_match : Uuid → Date → Action (Option MatchCardRow × ℕ)
unfolding cards
get_next_unviewed_match user_id today = query λ db.
    let unviewed = cards user_id (is_unviewed user_id today db) db in
    (Option.map card_row (head? (order_by matched_first unviewed)), length unviewed)

-- `(a, p) <= (b, q)` on the registration times and identifiers of two photos.
abbrev pub registered_first : Photo → Photo → Bool
registered_first p q =
    ltb p.registered_at q.registered_at || p.registered_at == q.registered_at && leb p.id q.id

abbrev pub own_side : Uuid → Uuid → MatchParticipant → Bool
own_side match_id user_id m = m.match_id == match_id && m.user_id == user_id

abbrev pub detail_row :
    Uuid → Db → Match → MatchParticipant → MatchParticipant → Photo → Photo → User → MatchDetailRow
detail_row user_id db x mine partner p q u = record {
  match_id = x.id;
  my_photo_id = p.id;
  my_image_url = p.image_url;
  my_registered_at = p.registered_at;
  my_deleted = is_some p.deleted_at;
  partner_photo_id = q.id;
  partner_image_url = q.image_url;
  partner_registered_at = q.registered_at;
  partner_deleted = is_some q.deleted_at;
  partner_id = u.id;
  partner_nickname = shown_name u.nickname;
  explanation = x.explanation;
  matched_at = x.matched_at;
  hidden = is_some mine.hidden_at;
  postcard_permission =
      resolve_postcard_permission (are_blocked user_id partner.user_id db) (registered_first p q)
        (last_sender x.id db) user_id;
}

unfoldable pub match_details : Uuid → Uuid → Db → List MatchDetailRow
match_details user_id match_id db = for_each (select (λ x. x.id == match_id) db.matches) λ x.
    for_each (select (own_side x.id user_id) db.match_participants) λ mine.
      for_each (partners x.id user_id db) λ partner. for_each (photos_under mine.photo_id db) λ p.
        for_each (photos_under partner.photo_id db) λ q.
          for_each (select (λ u. u.id == partner.user_id) db.users)
            λ u. detail_row user_id db x mine partner p q u ∷ []

unfoldable pub get_match_detail : Uuid → Uuid → Action (Option MatchDetailRow)
unfolding match_details
get_match_detail user_id match_id = do
  rows ← query (match_details user_id match_id)
  scalar_one_or_none rows

abbrev pub update_side : MatchParticipant → (MatchParticipant → MatchParticipant) → Db → Db
update_side m f db = record db {
  match_participants = update_where (own_side m.match_id m.user_id) f db.match_participants;
}

unfoldable pub update_match_visibility : Env → Uuid → Uuid → Bool → Action (Option Bool)
update_match_visibility e user_id match_id hidden = do
  rows ← query (λ db. select (own_side match_id user_id) db.match_participants)
  found ← scalar_one_or_none rows
  elim found [
    | none ↦ pure none
    | some m ↦ (do
      modify (update_side m λ n. record n { hidden_at = if hidden then some e.now else none })
      commit
      pure (some hidden))
  ]

unfoldable pub mark_match_viewed : Env → Uuid → Uuid → Action (Option DateTime)
mark_match_viewed e user_id match_id = do
  rows ← query (λ db. select (own_side match_id user_id) db.match_participants)
  found ← scalar_one_or_none rows
  elim found [
    | none ↦ pure none
    | some m ↦ elim m.viewed_at [
      | some t ↦ pure (some t)
      | none ↦ (do
        modify (update_side m λ n. record n { viewed_at = some e.now })
        commit
        pure (some e.now))
    ]
  ]
