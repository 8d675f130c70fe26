-- ===== src/PhotoLife/Matches.antt =====
-- The photos under the expiration job and the finalization of a match.
use dalm_backend.Expiration.{expire_due, expired_photo, is_expired}
use dalm_backend.Matching.{finalize, finalize_match, finalize_pair, finalize_rows, matched_photo}
use dalm_backend.Models.{
  DateTime, Photo, PhotoStatus, Uuid, embedding_status_eq, notification_type_eq, photo_status_eq,
  report_target_eq, term_type_eq, user_status_eq, validation_status_eq,
}
use dalm_backend.PhotoLife.{Advances, Grows, Grows-refl, Grows-trans, update_where-Grows}
use dalm_backend.Prelude.{
  All, All-intro, All-map, All-order_by, All-select, All-update_where, Bool, List, String, [], all,
  arith, leb, nat_eq, option_eq, order_by, order_by-All, refl, select, select-passes, string_eq,
  strip, true, update_where, ◌==◌, ◌||◌, ◌∷◌, ◌≡◌,
}
use dalm_backend.Store.{Db, Env, request, start}

expired_photo-Advances :
    (now : DateTime) (p : Photo) → is_expired now p ≡ true → Advances p (expired_photo p)
expired_photo-Advances now p h = ground arith

-- An expiration run moves the photos that are due forward.
pub expire_due-Grows :
    (e : Env) (now : DateTime) (db : Db) → Grows db.photos (request (expire_due e now) db).1.photos
unfolding expire_due
expire_due-Grows e now db = ground (
  arith,
  Grows-refl db.photos,
  update_where-Grows (is_expired now) expired_photo db.photos (
      All-intro (λ p. is_expired now p ≡ true → Advances p (expired_photo p)) db.photos
        (expired_photo-Advances now)),
)

abbrev is_matchable : Photo → Bool
is_matchable p = p.status == PhotoStatus.searching || p.status == PhotoStatus.matched

matched_photo-Advances : (p : Photo) → is_matchable p ≡ true → Advances p (matched_photo p)
matched_photo-Advances p h = ground arith

-- The test of `finalize`'s query.
abbrev is_one_of : Uuid → Uuid → Photo → Bool
is_one_of a b p = p.id == a || p.id == b

abbrev locked_pair : Uuid → Uuid → List Photo → List Photo
locked_pair a b ps = order_by (λ p q. leb p.id q.id) (select (is_one_of a b) ps)

module _ (a b : Uuid) (ps : List Photo) (p q : Photo)
    (found : locked_pair a b ps ≡ p ∷ q ∷ []) where
  pair_passes : All (λ x. is_one_of a b x ≡ true) (p ∷ q ∷ [])
  pair_passes = rw found at (
      order_by-All (λ x. is_one_of a b x ≡ true) (λ x y. leb x.id y.id) (select (is_one_of a b) ps)
        (select-passes (is_one_of a b) ps))

  rows_matchable :
      p.status ≡ PhotoStatus.searching
      → q.status ≡ PhotoStatus.searching
      → All (λ x. is_one_of a b x ≡ true → is_matchable x ≡ true) ps
  rows_matchable hp hq =
      let both : All (λ x. is_matchable x ≡ true) (p ∷ q ∷ []) =
        (ground arith, (ground arith, tt)) in
      All-select (λ x. is_matchable x ≡ true) (is_one_of a b) ps
        (All-order_by (λ x. is_matchable x ≡ true) (λ x y. leb x.id y.id)
          (select (is_one_of a b) ps) (rw found both))

  mark-Grows :
      (x : Photo) (qs : List Photo)
      → is_one_of a b x ≡ true
      → All (λ y. is_one_of a b y ≡ true → is_matchable y ≡ true) qs
      → Grows qs (update_where (λ y. y.id == x.id) matched_photo qs)
  mark-Grows x qs h all =
      update_where-Grows (λ y. y.id == x.id) matched_photo qs
        (All-map qs (λ y k e. matched_photo-Advances y (k (ground arith))) all)

  mark_both-Grows :
      p.status ≡ PhotoStatus.searching
      → q.status ≡ PhotoStatus.searching
      → Grows ps (
          update_where
            (λ y. y.id == q.id)
            matched_photo
            (update_where (λ y. y.id == p.id) matched_photo ps))
  mark_both-Grows hp hq =
      let all = rows_matchable hp hq in
      let ps' : List Photo = update_where (λ y. y.id == p.id) matched_photo ps in
      Grows-trans ps ps' _ (mark-Grows p ps pair_passes.0 all) (
        mark-Grows q ps' pair_passes.1.0
          (All-update_where _ (λ y. y.id == p.id) matched_photo ps (λ y k e. refl) all))

  finalize_pair-Grows :
      (e : Env) (text : String) (now : DateTime) (db : Db)
      → db.photos ≡ ps
      → Grows db.photos (finalize_pair e text now p q (start db)).1.committed.photos
  unfolding finalize_pair
  finalize_pair-Grows e text now db same = ground (arith, Grows-refl ps, mark_both-Grows)

finalize_rows-Grows :
    (e : Env) (text : String) (now : DateTime) (a b : Uuid) (db : Db) (rows : List Photo)
    → locked_pair a b db.photos ≡ rows
    → Grows db.photos (finalize_rows e text now rows (start db)).1.committed.photos
unfolding finalize_rows
finalize_rows-Grows e text now a b db [] h = Grows-refl db.photos
finalize_rows-Grows e text now a b db (p ∷ []) h = Grows-refl db.photos
finalize_rows-Grows e text now a b db (p ∷ q ∷ []) h =
    finalize_pair-Grows a b db.photos p q h e text now db refl
finalize_rows-Grows e text now a b db (p ∷ q ∷ r ∷ rs) h = Grows-refl db.photos

finalize-Grows :
    (e : Env) (a b : Uuid) (text : String) (now : DateTime) (db : Db)
    → Grows db.photos (finalize e a b text now (start db)).1.committed.photos
unfolding finalize
finalize-Grows e a b text now db =
    ground (arith, finalize_rows-Grows e text now a b db (locked_pair a b db.photos) refl)

-- A match moves its two photos forward, or leaves the photos alone.
pub finalize_match-Grows :
    (e : Env) (a b : Uuid) (text : String) (now : DateTime) (db : Db)
    → Grows db.photos (request (finalize_match e a b text now) db).1.photos
unfolding finalize_match
finalize_match-Grows e a b text now db = ground (
  arith,
  Grows-refl db.photos,
  finalize-Grows e a b (strip text) now db,
  finalize-Grows e b a (strip text) now db,
)
