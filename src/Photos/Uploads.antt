-- ===== src/Photos/Uploads.antt =====
-- What an upload that is accepted has been checked for, and what it writes.
use dalm_backend.Models.{
  Photo, User, UserStatus, Uuid, embedding_status_eq, notification_type_eq, onboarding_required,
  photo_status_eq, report_target_eq, term_type_eq, user_status_eq, validation_status_eq,
}
use dalm_backend.Photos.{
  Upload, add_upload, create_checked, create_photo, expire_stale_validations, get_user,
  has_checksum, is_closed, is_stale, release_checksum, store_upload, timed_out, uploaded_photo,
}
use dalm_backend.Prelude.{
  All, All-select, Bool, Bool-cases, List, Option-cases, Rows-cases, [], any, ap, arith, false, inl,
  inr, nat_eq, not, option_eq, refl, select, some, string_eq, subst, sym, true, update_where, ◌&&◌,
  ◌==◌, ◌∙◌, ◌∷◌, ◌≡◌, ◌⊎◌,
}
use dalm_backend.Store.{
  Db, Env, Result, Session, is_active, is_ok, ok, request, satisfies_constraints, start, ◌>>◌,
}

-- The database once the user's validations that take too long have been rejected.
abbrev pub after_timeouts : Env → Uuid → Db → Db
after_timeouts e user_id db = record db {
  photos = update_where (is_stale e.now user_id) timed_out db.photos;
}

update_where-none :
    (t : Photo → Bool) (f : Photo → Photo) (ps : List Photo)
    → any t ps ≡ false
    → update_where t f ps ≡ ps
update_where-none t f [] h = refl
update_where-none t f (p ∷ ps) h = ground (arith, update_where-none t f ps)

expire_stale_ok :
    (e : Env) (user_id : Uuid) (db : Db)
    → (is_ok (expire_stale_validations e user_id (start db)).0 ≡ false)
      ⊎ (expire_stale_validations e user_id (start db)
          ≡ (ok tt, start (after_timeouts e user_id db)))
unfolding expire_stale_validations
expire_stale_ok e user_id db = elim (Bool-cases (any (is_stale e.now user_id) db.photos)) [
  | inr h ↦ inr (
      rw h (
        ap (λ ps. (ok tt, start (record db { photos = ps })))
          (sym (update_where-none (is_stale e.now user_id) timed_out db.photos h))))
  | inl h ↦ elim (Bool-cases (satisfies_constraints (after_timeouts e user_id db))) [
    | inl k ↦ inr (rw (h, k) refl)
    | inr k ↦ inl (rw (h, k) refl)
  ]
]

-- An active photo of the uploader on the day of the upload.
abbrev pub is_taken : Upload → Photo → Bool
is_taken u p = p.user_id == u.user_id && p.registered_date == u.registered_date && is_active p

-- What an upload that is accepted finds in the database, and what it makes of it.
abbrev pub IsUploaded : Env → Upload → Photo → Db → Db → Type 0
IsUploaded e u p db db' =
    (p ≡ uploaded_photo e u)
    × All (λ q. is_taken u q ≡ true → ⊥) db.photos
    × All (λ q. (has_checksum u q && not (is_closed q)) ≡ true → ⊥) (release_checksum u db).photos
    × (db' ≡ add_upload e u (release_checksum u db))

store_upload_ok :
    (e : Env) (u : Upload) (p : Photo) (db : Db)
    → (store_upload e u (start db)).0 ≡ ok p
    → (p ≡ uploaded_photo e u)
      × All (λ q. (has_checksum u q && not (is_closed q)) ≡ true → ⊥) (release_checksum u db).photos
      × ((store_upload e u (start db)).1.committed ≡ add_upload e u (release_checksum u db))
unfolding store_upload
store_upload_ok e u p db h =
    elim (Rows-cases
      (select (λ q. has_checksum u q && not (is_closed q)) (release_checksum u db).photos)) [
        | inl none_found ↦ (
          ground arith,
          All-select (λ q. ⊥) (λ q. has_checksum u q && not (is_closed q))
              (release_checksum u db).photos (rw none_found tt),
          ground arith,
        )
        | inr (inl (q, found)) ↦ absurd (ground arith)
        | inr (inr (q, r, rs, many)) ↦ absurd (ground arith)
      ]

create_checked_ok :
    (e : Env) (u : Upload) (p : Photo) (db : Db)
    → (create_checked e u (start db)).0 ≡ ok p
    → IsUploaded e u p db (create_checked e u (start db)).1.committed
unfolding create_checked
create_checked_ok e u p db h = elim (Rows-cases (select (is_taken u) db.photos)) [
  | inl none_found ↦
      let r = store_upload_ok e u p db (ground arith) in
      (r.0, All-select (λ q. ⊥) (is_taken u) db.photos (rw none_found tt), r.1, ground (arith, r.2))
  | inr (inl (q, found)) ↦ absurd (ground arith)
  | inr (inr (q, r, rs, many)) ↦ absurd (ground arith)
]

create_active_ok :
    (e : Env) (u : Upload) (p : Photo) (db : Db)
    → ((expire_stale_validations e u.user_id >> create_checked e u) (start db)).0 ≡ ok p
    → IsUploaded e u p
        (after_timeouts e u.user_id db)
        ((expire_stale_validations e u.user_id >> create_checked e u) (start db)).1.committed
create_active_ok e u p db h = elim (expire_stale_ok e u.user_id db) [
  | inl failed ↦ absurd (ground arith)
  | inr same ↦
      let after = continued same in
      subst
        (λ (r : Result Photo × Session).
          IsUploaded e u p (after_timeouts e u.user_id db) r.1.committed)
        (sym after)
        (create_checked_ok e u p (after_timeouts e u.user_id db)
          (sym (ap (λ (r : Result Photo × Session). r.0) after) ∙ h))
]
  where
    continued :
        expire_stale_validations e u.user_id (start db)
          ≡ (ok tt, start (after_timeouts e u.user_id db))
        → (expire_stale_validations e u.user_id >> create_checked e u) (start db)
          ≡ create_checked e u (start (after_timeouts e u.user_id db))
    continued same = ground arith

-- An upload that is accepted is of an active user who has a nickname and, once validations that take
-- too long have been rejected, has no active photo of that day and no open photo of that checksum.
-- It writes exactly the new photo with its work (`add_upload`), after taking the checksum from the
-- user's closed photos.
pub create_photo_ok :
    (e : Env) (u : Upload) (p : Photo) (db : Db)
    → (request (create_photo e u) db).0 ≡ ok p
    → (user : User) × (get_user u.user_id db ≡ some user)
      × (user.status ≡ UserStatus.active)
      × (onboarding_required user ≡ false)
      × IsUploaded e u p (after_timeouts e u.user_id db) (request (create_photo e u) db).1
unfolding create_photo
create_photo_ok e u p db h = elim (Option-cases (get_user u.user_id db)) [
  | inl nobody ↦ absurd (ground arith)
  | inr (user, found) ↦
      let (h', same) = accepted user found in
      (
        user,
        found,
        ground arith,
        ground arith,
        subst (λ db'. IsUploaded e u p (after_timeouts e u.user_id db) db') (sym same)
            (create_active_ok e u p db h'),
      )
]
  where
    accepted :
        (user : User)
        → get_user u.user_id db ≡ some user
        → (((expire_stale_validations e u.user_id >> create_checked e u) (start db)).0 ≡ ok p)
          × ((request (create_photo e u) db).1
              ≡ ((expire_stale_validations e u.user_id >> create_checked e u)
                  (start db)).1.committed)
    accepted user found = ground arith
