-- ===== src/Http/Uploads/Orphans.antt =====
-- What an upload that fails leaves behind.
use dalm_backend.Http.Access.{App}
use dalm_backend.Http.Uploads.{
  UploadForm, process_form, record_upload, storage_key_of, store_processed, upload_photo,
  upload_row,
}
use dalm_backend.Models.{Uuid}
use dalm_backend.PhotoStorage.{PhotoStorage}
use dalm_backend.PhotoStorage.Laws.{StorageLaws}
use dalm_backend.PhotoUpload.{Pillow, ProcessedPhoto}
use dalm_backend.Photos.{Upload}
use dalm_backend.Prelude.{
  Option-cases, String, ap, arith, inl, inr, refl, some, subst, sym, ◌∙◌, ◌≡◌, ◌⊎◌,
}
use dalm_backend.Store.{Db, Env, Error, Result-cases, err, ok}
use dalm_backend.Tokens.{TokenClaims}

module _ {S : Type 0} (storage : PhotoStorage S) where
  -- From one state of the storage to another, the upload of the image has failed, or it was stored and
  -- the deletion that was to take it back has failed.
  abbrev pub HasFailed : String → ProcessedPhoto → S → S → Type 0
  HasFailed key p s s' =
      ((y : Error) × (storage.upload key p.content p.content_type s ≡ (err y, s')))
      ⊎ ((stored : S) × (y : Error) × (storage.upload key p.content p.content_type s
            ≡ (ok tt, stored))
          × (storage.delete key stored ≡ (err y, s')))

  record_upload_deletes :
      (app : App) (e : Env) (u : Upload) (db : Db) (s : S) (x : Error)
      → (record_upload storage app e u db s).0 ≡ err x
      → (record_upload storage app e u db s).2 ≡ (storage.delete u.storage_key s).1
  unfolding record_upload
  record_upload_deletes app e u db s x h = ground arith

  module _ (laws : StorageLaws storage) where
    store_processed_kept :
        (app : App) (e : Env) (id : Uuid) (p : ProcessedPhoto) (db : Db) (s : S) (x : Error)
        → (store_processed storage app e id p db s).0 ≡ err x
        → ((store_processed storage app e id p db s).2 ≡ s)
          ⊎ HasFailed
              (storage_key_of app id (e.uuid4 0))
              p
              s
              (store_processed storage app e id p db s).2
    unfolding store_processed
    store_processed_kept app e id p db s x h =
        let u = upload_row app e id p in
        let up = storage.upload u.storage_key p.content p.content_type s in
        let down = storage.delete u.storage_key up.1 in
        elim (Result-cases up.0) [
          | inl (y, refused) ↦
              let left : (store_processed storage app e id p db s).2 ≡ up.1 =
                rw (store_processed, refused) refl in
              inr (inl (y, (ap (λ r. (r, up.1)) refused ∙ ap (λ t. (err y, t)) (sym left))))
          | inr (o, uploaded) ↦
              let done : up ≡ (ok tt, up.1) = ap (λ r. (r, up.1)) uploaded in
              let h' : (record_upload storage app e u db up.1).0 ≡ err x =
                rw (store_processed, uploaded) at h in
              let deleted : (store_processed storage app e id p db s).2 ≡ down.1 =
                rw (store_processed, uploaded) (record_upload_deletes app e u db up.1 x h') in
              elim (Result-cases down.0) [
                | inl (y, undeleted) ↦ inr (
                    inr (
                      up.1,
                      y,
                      done,
                      ap (λ r. (r, down.1)) undeleted ∙ ap (λ t. (err y, t)) (sym deleted),
                    ))
                | inr (o', gone) ↦ inl (
                    deleted
                    ∙ laws.taken_back u.storage_key p.content_type p.content s up.1 down.1 done
                        (ap (λ r. (r, down.1)) gone))
              ]
        ]

    -- With a storage in which a deletion that succeeds takes back an upload: an upload that is answered
    -- with an error, at whatever point it fails, leaves the storage as it was, so no image is kept
    -- without its photo; unless the storage itself has failed, in the upload of the processed image
    -- or in the deletion that was to take it back, whose error is suppressed.
    pub upload_photo_kept :
        (app : App) (pillow : Pillow) (e : Env) (claims : TokenClaims) (form : UploadForm) (db : Db)
        (s : S) (x : Error)
        → (upload_photo storage app pillow e claims form db s).0 ≡ err x
        → ((upload_photo storage app pillow e claims form db s).2 ≡ s)
          ⊎ ((id : Uuid) × (p : ProcessedPhoto) × (app.parse_subject claims.subject ≡ some id)
              × (process_form app pillow form ≡ ok p)
              × HasFailed
                  (storage_key_of app id (e.uuid4 0))
                  p
                  s
                  (upload_photo storage app pillow e claims form db s).2)
    unfolding upload_photo
    upload_photo_kept app pillow e claims form db s x h =
        elim (Option-cases (app.parse_subject claims.subject)) [
          | inl nobody ↦ inl (rw (upload_photo, nobody) refl)
          | inr (id, named) ↦ elim (Result-cases (process_form app pillow form)) [
            | inl (y, refused) ↦ inl (rw (upload_photo, named, refused) refl)
            | inr (p, processed) ↦
                let same : upload_photo storage app pillow e claims form db s
                    ≡ store_processed storage app e id p db s =
                  rw (upload_photo, named, processed) refl in
                elim (store_processed_kept app e id p db s x (ap (λ r. r.0) (sym same) ∙ h)) [
                  | inl kept ↦ inl (ap (λ r. r.2) same ∙ kept)
                  | inr failed ↦ inr (
                    id,
                    p,
                    named,
                    processed,
                    subst (HasFailed (storage_key_of app id (e.uuid4 0)) p s)
                        (ap (λ r. r.2) (sym same)) failed,
                  )
                ]
          ]
        ]
