-- ===== src/PhotoValidations/Stored.antt =====
-- What the tables hold of a job and of its photo.
use dalm_backend.Models.{
  Photo, PhotoStatus, PhotoValidation, Uuid, embedding_status_eq, notification_type_eq,
  photo_status_eq, report_target_eq, term_type_eq, user_status_eq, validation_status_eq,
}
use dalm_backend.PhotoValidations.Claims.{update_validation}
use dalm_backend.Prelude.{
  ==_sound, All, [], ap, nat_eq, option_eq, refl, select, select-passes, select-update_found,
  string_eq, subst, sym, true, ◌==◌, ◌∙◌, ◌∷◌, ◌≡◌, ◌≢◌,
}
use dalm_backend.Store.{Db}

-- Every photo under an identifier has a status.
abbrev pub AllAre : Uuid → PhotoStatus → Db → Type 0
AllAre id s db = All (λ (p : Photo). (p.id == id) ≡ true → p.status ≡ s) db.photos

abbrev pub NoneAre : Uuid → PhotoStatus → Db → Type 0
NoneAre id s db = All (λ (p : Photo). (p.id == id) ≡ true → p.status ≢ s) db.photos

-- The one row under the identifier of a job is the job as it stands.
abbrev pub IsStored : PhotoValidation → Db → Type 0
IsStored w db = select (λ (u : PhotoValidation). u.id == w.id) db.photo_validations ≡ w ∷ []

pub update-IsStored :
    (id : Uuid) (f : PhotoValidation → PhotoValidation) (v : PhotoValidation) (db db' : Db)
    → ((u : PhotoValidation) → (f u).id ≡ u.id)
    → select (λ (u : PhotoValidation). u.id == id) db.photo_validations ≡ v ∷ []
    → db'.photo_validations ≡ (update_validation v.id f db).photo_validations
    → IsStored (f v) db'
update-IsStored id f v db db' keep found rows =
    let passes : All (λ (u : PhotoValidation). (u.id == id) ≡ true) (v ∷ []) =
      rw found at (select-passes (λ (u : PhotoValidation). u.id == id) db.photo_validations) in
    let same : v.id ≡ id = ==_sound v.id id passes.0 in
    subst (λ n. select (λ (u : PhotoValidation). u.id == n) db'.photo_validations ≡ f v ∷ [])
      (sym (keep v))
      (ap (select (λ (u : PhotoValidation). u.id == v.id)) rows
        ∙ select-update_found (λ (u : PhotoValidation). u.id == v.id) (λ u. u.id == v.id) f
            db.photo_validations v (λ u. refl) (λ u k. rw (keep u) k)
            (subst (λ n. select (λ (u : PhotoValidation). u.id == n) db.photo_validations ≡ v ∷ [])
              (sym same) found))

pub found-id :
    (id : Uuid) (p : Photo) (db : Db)
    → select (λ (q : Photo). q.id == id) db.photos ≡ p ∷ []
    → p.id ≡ id
found-id id p db found =
    let passes : All (λ (q : Photo). (q.id == id) ≡ true) (p ∷ []) =
      rw found at (select-passes (λ (q : Photo). q.id == id) db.photos) in
    ==_sound p.id id passes.0
