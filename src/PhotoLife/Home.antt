-- ===== src/PhotoLife/Home.antt =====
-- The photos under the requests of their owner.
use dalm_backend.Models.{
  Date, DateTime, Photo, Uuid, embedding_status_eq, notification_type_eq, photo_status_eq,
  report_target_eq, term_type_eq, user_status_eq, validation_status_eq,
}
use dalm_backend.PhotoLife.{
  Advances, Advances-refl, Grows, Grows-refl, Grows-trans, append-Grows, update_found-Grows,
  update_where-Grows,
}
use dalm_backend.Photos.{
  Upload, add_upload, create_checked, create_photo, delete_photo, deleted_photo,
  expire_stale_validations, get_today_photo, has_checksum, is_closed, is_deletable, is_stale,
  release_checksum, store_upload, timed_out, uploaded_photo,
}
use dalm_backend.Prelude.{
  All-intro, Bool-cases, List, Rows-cases, [], any, arith, inl, inr, nat_eq, none, not, option_eq,
  refl, select, string_eq, true, update_where, ◌&&◌, ◌==◌, ◌∷◌, ◌≡◌, ◌⊎◌,
}
use dalm_backend.Store.{
  Db, Env, Error, Session, err, is_active, ok, request, satisfies_constraints, start, ◌>>◌,
}

timed_out-Advances :
    (now : DateTime) (user : Uuid) (p : Photo)
    → is_stale now user p ≡ true
    → Advances p (timed_out p)
timed_out-Advances now user p h = ground arith

stale-Grows :
    (now : DateTime) (user : Uuid) (ps : List Photo)
    → Grows ps (update_where (is_stale now user) timed_out ps)
stale-Grows now user ps = update_where-Grows (is_stale now user) timed_out ps (
    All-intro (λ p. is_stale now user p ≡ true → Advances p (timed_out p)) ps
      (timed_out-Advances now user))

-- Timing out a validation moves its photo forward.
pub expire_stale-Grows :
    (e : Env) (user : Uuid) (db : Db)
    → Grows db.photos (expire_stale_validations e user (start db)).1.committed.photos
unfolding expire_stale_validations
expire_stale-Grows e user db =
    ground (arith, Grows-refl db.photos, stale-Grows e.now user db.photos)

pub get_today_photo-Grows :
    (e : Env) (user : Uuid) (today : Date) (db : Db)
    → Grows db.photos (request (get_today_photo e user today) db).1.photos
unfolding get_today_photo
get_today_photo-Grows e user today db =
    ground (arith, Grows-refl db.photos, stale-Grows e.now user db.photos)

deleted_photo-Advances :
    (now : DateTime) (p : Photo) → is_deletable p ≡ true → Advances p (deleted_photo now p)
deleted_photo-Advances now p h = ground arith

-- A deletion moves its photo forward, or leaves the photos alone.
pub delete_photo-Grows :
    (e : Env) (user id : Uuid) (db : Db)
    → Grows db.photos (request (delete_photo e user id) db).1.photos
unfolding delete_photo
delete_photo-Grows e user id db = elim (Rows-cases (select (λ (p : Photo). p.id == id) db.photos)) [
  | inl none_found ↦ ground (arith, Grows-refl db.photos)
  | inr (inl (p, found)) ↦ ground (
    arith,
    Grows-refl db.photos,
    deleted_photo-Advances e.now p,
    update_found-Grows id p (deleted_photo e.now) db.photos found,
  )
  | inr (inr (p, q, r, many)) ↦ ground (arith, Grows-refl db.photos)
]

release_checksum-Grows : (u : Upload) (db : Db) → Grows db.photos (release_checksum u db).photos
release_checksum-Grows u db =
    update_where-Grows _ _ db.photos (All-intro _ db.photos λ p h. released p)
  where
    released : (p : Photo) → Advances p (record p { checksum = none })
    released p =
        let a = Advances-refl p in
        record {
          same_id = refl;
          same_owner = refl;
          same_day = refl;
          same_time = refl;
          forward = a.forward;
          window = λ w. w;
        }

add_upload-Grows : (e : Env) (u : Upload) (db : Db) → Grows db.photos (add_upload e u db).photos
add_upload-Grows e u db = elim (Bool-cases u.mock_passed) [
  | inl h ↦ ground (arith, append-Grows db.photos (uploaded_photo e u ∷ []))
  | inr h ↦ ground (arith, append-Grows db.photos (uploaded_photo e u ∷ []))
]

-- `expire_stale_validations` fails with the database as it was, or leaves nothing pending.
pub expire_stale_cases :
    (e : Env) (user : Uuid) (db : Db)
    → ((x : Error) × (t : Session) × (expire_stale_validations e user (start db) ≡ (err x, t))
        × (t.committed ≡ db))
      ⊎ ((db' : Db) × (expire_stale_validations e user (start db) ≡ (ok tt, start db'))
          × Grows db.photos db'.photos)
unfolding expire_stale_validations
expire_stale_cases e user db = elim (Bool-cases (any (is_stale e.now user) db.photos)) [
  | inr h ↦ inr (db, rw h refl, Grows-refl db.photos)
  | inl h ↦
      let timed = record db { photos = update_where (is_stale e.now user) timed_out db.photos } in
      elim (Bool-cases (satisfies_constraints timed)) [
        | inl k ↦ inr (timed, rw (h, k) refl, stale-Grows e.now user db.photos)
        | inr k ↦ inl (
          Error.integrity_error,
          record { committed = db; working = timed },
          rw (h, k) refl,
          refl,
        )
      ]
]

store_upload-Grows :
    (e : Env) (u : Upload) (db : Db)
    → Grows db.photos (store_upload e u (start db)).1.committed.photos
unfolding store_upload
store_upload-Grows e u db =
    elim (Rows-cases
      (select (λ p. has_checksum u p && not (is_closed p)) (release_checksum u db).photos)) [
        | inl none_found ↦ ground (
          arith,
          Grows-refl db.photos,
          Grows-trans db.photos (release_checksum u db).photos
              (add_upload e u (release_checksum u db)).photos (release_checksum-Grows u db)
              (add_upload-Grows e u (release_checksum u db)),
        )
        | inr (inl (p, found)) ↦ ground (arith, Grows-refl db.photos)
        | inr (inr (p, q, r, many)) ↦ ground (arith, Grows-refl db.photos)
      ]

create_tail-Grows :
    (e : Env) (u : Upload) (db : Db)
    → Grows db.photos (create_checked e u (start db)).1.committed.photos
unfolding create_checked
create_tail-Grows e u db =
    elim (Rows-cases (
      select (λ p. p.user_id == u.user_id && p.registered_date == u.registered_date && is_active p)
        db.photos)) [
          | inl none_found ↦ ground (arith, store_upload-Grows e u db)
          | inr (inl (p, found)) ↦ ground (arith, Grows-refl db.photos)
          | inr (inr (p, q, r, many)) ↦ ground (arith, Grows-refl db.photos)
        ]

create_active-Grows :
    (e : Env) (u : Upload) (db : Db)
    → Grows db.photos
        ((expire_stale_validations e u.user_id >> create_checked e u) (start db)).1.committed.photos
create_active-Grows e u db = elim (expire_stale_cases e u.user_id db) [
  | inl (x, t, failed, same) ↦ ground (arith, Grows-refl db.photos)
  | inr (db', done, grown) ↦ ground (
    arith,
    Grows-trans db.photos db'.photos (create_checked e u (start db')).1.committed.photos grown
        (create_tail-Grows e u db'),
  )
]

-- An upload adds one photo at the end, and moves forward those whose validation has run out of time.
pub create_photo-Grows :
    (e : Env) (u : Upload) (db : Db) → Grows db.photos (request (create_photo e u) db).1.photos
unfolding create_photo
create_photo-Grows e u db = ground (arith, Grows-refl db.photos, create_active-Grows e u db)
