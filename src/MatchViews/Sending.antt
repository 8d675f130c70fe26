-- ===== src/MatchViews/Sending.antt =====
-- The permission that the detail of a match shows, and what sending a postcard then does.
use dalm_backend.MatchViews.{
  MatchDetailRow, detail_row, get_match_detail, match_details, own_side, partners, photos_under,
  registered_first,
}
use dalm_backend.Matching.{are_blocked}
use dalm_backend.Models.{
  Match, MatchParticipant, Photo, User, Uuid, embedding_status_eq, notification_type_eq,
  photo_status_eq, report_target_eq, term_type_eq, user_status_eq, validation_status_eq,
}
use dalm_backend.Pages.Order.{select-both}
use dalm_backend.Postcards.{
  Draft, Permission, PostcardRow, Seat, get_postcard, last_sender, other_seat,
  resolve_postcard_permission, seats, send_between, send_in, send_new, write_postcard,
}
use dalm_backend.Prelude.{
  All, Bool, Bool-cases, Option-cases, [], ap, arith, false, if◌then◌else◌, inl, inr, nat_eq, not,
  option_eq, refl, select, select-passes, some, string_eq, true, ◌==◌, ◌||◌, ◌∙◌, ◌∷◌, ◌≡◌, ◌⊎◌,
}
use dalm_backend.Store.{
  Action, Code, Db, Env, Result, api_error, commit_or, err, modify, ok, request, ◌>>◌,
}

-- What `send` does once its checks are passed.
abbrev pub deliver : Env → Draft → Uuid → Action PostcardRow
deliver e d receiver_id = do
  modify (write_postcard e d receiver_id)
  commit_or (api_error 409 Code.postcard_already_sent)
  get_postcard d.user_id (e.uuid4 0)

-- What a permission announces.
abbrev pub announced : Env → Draft → Uuid → Permission → Db → Result PostcardRow × Db
announced e d receiver_id Permission.can_send db = request (deliver e d receiver_id) db
announced e d receiver_id Permission.waiting_for_first db =
    (err (api_error 409 Code.postcard_order_not_allowed), db)
announced e d receiver_id Permission.waiting_for_reply db =
    (err (api_error 409 Code.postcard_reply_not_received), db)
announced e d receiver_id Permission.blocked db = (err (api_error 409 Code.user_blocked), db)

abbrev pub seat_of : MatchParticipant → Photo → Seat
seat_of m p = record { user_id = m.user_id; registered_at = p.registered_at; photo_id = p.id }

-- A match of two users as the tables hold it: one row of the match, the two sides in some order,
-- and one photo and one account to a side.
pub record IsMatchOf (d : Draft) (db : Db) (x : Match) (mine partner : MatchParticipant)
    (p q : Photo) (u : User) : Type 0 where
  pub one_match : select (λ (y : Match). y.id == d.match_id) db.matches ≡ x ∷ []
  pub two_sides :
      (select (λ (m : MatchParticipant). m.match_id == d.match_id) db.match_participants
        ≡ mine ∷ partner ∷ [])
      ⊎ (select (λ (m : MatchParticipant). m.match_id == d.match_id) db.match_participants
          ≡ partner ∷ mine ∷ [])
  pub own : (mine.user_id == d.user_id) ≡ true
  pub other : (partner.user_id == d.user_id) ≡ false
  pub my_photo : photos_under mine.photo_id db ≡ p ∷ []
  pub partner_photo : photos_under partner.photo_id db ≡ q ∷ []
  pub apart_photos : (p.id == q.id) ≡ false
  pub partner_user : select (λ (w : User). w.id == partner.user_id) db.users ≡ u ∷ []

sent_between :
    (e : Env) (d : Draft) (s t : Seat) (r : Uuid) (first : Bool) (db : Db)
    → (s.user_id == d.user_id || t.user_id == d.user_id) ≡ true
    → other_seat d.user_id s t ≡ some r
    → (d.user_id == s.user_id) ≡ first
    → request (send_between e d s t) db
      ≡ announced e d r
          (resolve_postcard_permission
            (are_blocked d.user_id r db)
            first
            (last_sender d.match_id db)
            d.user_id)
          db
unfolding send_between resolve_postcard_permission
sent_between e d s t r first db h1 h2 h3 = elim (Bool-cases (are_blocked d.user_id r db)) [
  | inl b ↦ rw (h1, h2, b) refl
  | inr b ↦ elim (Option-cases (last_sender d.match_id db)) [
    | inl nobody ↦ elim (Bool-cases first) [
      | inl f ↦ rw (h1, h2, b, nobody, h3, f) refl
      | inr f ↦ rw (h1, h2, b, nobody, h3, f) refl
    ]
    | inr (l, someone) ↦ elim (Bool-cases (l == d.user_id)) [
      | inl f ↦ rw (h1, h2, b, someone, f) refl
      | inr f ↦ rw (h1, h2, b, someone, f) refl
    ]
  ]
]

module _ (d : Draft) (db : Db) (x : Match) (mine partner : MatchParticipant) (p q : Photo)
    (u : User) (holds : IsMatchOf d db x mine partner p q u) where
  same_match : x.id ≡ d.match_id
  same_match =
      let passes : All (λ (y : Match). (y.id == d.match_id) ≡ true) (x ∷ []) =
        rw holds.one_match at (select-passes (λ (y : Match). y.id == d.match_id) db.matches) in
      ground (arith, passes.0)

  -- The side of the photo that was registered first stands first.
  ordered_seats : seats d.match_id db ≡ (
      if registered_first p q
      then seat_of mine p ∷ seat_of partner q ∷ []
      else seat_of partner q ∷ seat_of mine p ∷ [])
  unfolding seats
  ordered_seats = elim holds.two_sides [
    | inl sides ↦ rw (sides, holds.my_photo, holds.partner_photo) refl
    | inr sides ↦
        let apart_ids = holds.apart_photos in
        rw (sides, holds.my_photo, holds.partner_photo) (ground arith)
  ]

  own_row : select (own_side d.match_id d.user_id) db.match_participants ≡ mine ∷ []
  own_row =
      select-both (λ (m : MatchParticipant). m.match_id == d.match_id)
        (λ (m : MatchParticipant). m.user_id == d.user_id) db.match_participants
      ∙ elim holds.two_sides [
        | inl sides ↦ rw (sides, holds.own, holds.other) refl
        | inr sides ↦ rw (sides, holds.own, holds.other) refl
      ]

  partner_row : partners d.match_id d.user_id db ≡ partner ∷ []
  partner_row =
      select-both (λ (m : MatchParticipant). m.match_id == d.match_id)
        (λ (m : MatchParticipant). not (m.user_id == d.user_id)) db.match_participants
      ∙ elim holds.two_sides [
        | inl sides ↦ rw (sides, holds.own, holds.other) refl
        | inr sides ↦ rw (sides, holds.own, holds.other) refl
      ]

  shown_detail :
      (request (get_match_detail d.user_id d.match_id) db).0
      ≡ ok (some (detail_row d.user_id db x mine partner p q u))
  unfolding get_match_detail match_details
  shown_detail =
      rw
        (
          holds.one_match, same_match, own_row, partner_row, holds.my_photo, holds.partner_photo,
          holds.partner_user,
        )
        refl

  -- For a match that the tables hold with its two sides: the detail of the match is shown, and
  -- sending a postcard in it does exactly what the permission that is shown announces. With
  -- `CAN_SEND` the postcard is delivered; with each other permission the request is refused with
  -- the error that goes with it, and nothing is written.
  pub send-get_match_detail :
      (e : Env)
      → (row : MatchDetailRow) × ((request (get_match_detail d.user_id d.match_id) db).0
          ≡ ok (some row))
        × (request (send_new e d) db) ≡ announced e d partner.user_id row.postcard_permission db
  unfolding send_new send_in
  send-get_match_detail e = (
    detail_row d.user_id db x mine partner p q u,
    shown_detail,
    (ap (λ rows. request (send_in e d rows) db) ordered_seats
        ∙ elim (Bool-cases (registered_first p q)) [
          | inl f ↦
              rw (f, same_match)
                (sent_between e d (seat_of mine p) (seat_of partner q) partner.user_id true db
                  (ground (arith, holds.own)) (ground (arith, holds.own, holds.other))
                  (ground (arith, holds.own)))
          | inr f ↦
              rw (f, same_match)
                (sent_between e d (seat_of partner q) (seat_of mine p) partner.user_id false db
                  (ground (arith, holds.own)) (ground (arith, holds.own, holds.other))
                  (ground (arith, holds.other)))
        ]),
  )
