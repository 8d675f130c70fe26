-- ===== src/PhotoStorage/Laws.antt =====
-- What is relied on of a storage, and of the clients behind it.
use dalm_backend.PhotoStorage.{
  BotoOutcome, GcsClient, GcsOutcome, PhotoStorage, S3Client, boto_core_error, client_error,
  gcs_delete_result, gcs_not_found, gcs_storage, gcs_upload_result, google_api_error,
  precondition_failed, returned, s3_result, s3_storage, s3_upload_result, succeeded,
}
use dalm_backend.PhotoUpload.{Bytes}
use dalm_backend.Prelude.{String, ap, arith, inl, inr, none, refl, some, ◌∙◌, ◌≡◌, ◌⊎◌}
use dalm_backend.Store.{Result, ok}

-- After an upload under a key, which had nothing, a deletion of that key that succeeds takes back what
-- was stored.
pub record StorageLaws {S : Type 0} (storage : PhotoStorage S) : Type 0 where
  pub taken_back :
      (key content_type : String) (content : Bytes) (s s' s'' : S)
      → storage.upload key content content_type s ≡ (ok tt, s')
      → storage.delete key s' ≡ (ok tt, s'')
      → s'' ≡ s

-- `put_object` with `IfNoneMatch="*"` stores only under a key that has nothing.
pub record S3Laws {S : Type 0} (client : S3Client S) : Type 0 where
  pub deleted :
      (key content_type : String) (content : Bytes) (s s' s'' : S)
      → client.put_object key content content_type s ≡ (returned tt, s')
      → client.delete_object key s' ≡ (returned tt, s'')
      → s'' ≡ s

-- `upload_from_string` with `if_generation_match=0` stores only under a key that has nothing, and a
-- deletion does not find a key that has nothing.
pub record GcsLaws {S : Type 0} (client : GcsClient S) : Type 0 where
  pub deleted :
      (key content_type : String) (content : Bytes) (s s' s'' : S)
      → client.upload_from_string key content content_type s ≡ (succeeded tt, s')
      → (client.delete_blob key s' ≡ (succeeded tt, s''))
        ⊎ (client.delete_blob key s' ≡ (GcsOutcome.gcs_not_found, s''))
      → s'' ≡ s

-- An outcome that only one value gives is that value.
outcome :
    {O S : Type 0} {f : O → Result (Unit {0})} (o : O)
    → ((r : O) → f r ≡ ok tt → r ≡ o)
    → (x : O × S) (s : S) → Path (Result (Unit {0}) × S) (f x.0, x.1) (ok tt, s)
    → x ≡ (o, s)
outcome o only x s h =
    ap (λ r. (r, x.1)) (only x.0 (ap (λ y. y.0) h)) ∙ ap (λ t. (o, t)) (ap (λ y. y.1) h)

s3_upload_returned : (r : BotoOutcome (Unit {0})) → s3_upload_result r ≡ ok tt → r ≡ returned tt
s3_upload_returned (returned u) h = refl
s3_upload_returned (client_error none) h = cc
s3_upload_returned (client_error (some status)) h = absurd (ground arith)
s3_upload_returned boto_core_error h = cc

s3_returned : (r : BotoOutcome (Unit {0})) → s3_result r ≡ ok tt → r ≡ returned tt
s3_returned (returned u) h = refl
s3_returned (client_error status) h = cc
s3_returned boto_core_error h = cc

pub s3_storage-StorageLaws :
    {S : Type 0} (client : S3Client S) → S3Laws client → StorageLaws (s3_storage client)
s3_storage-StorageLaws client laws = record {
  taken_back = λ key content_type content s s' s'' up down.
      laws.deleted key content_type content s s' s''
        (outcome (returned tt) s3_upload_returned (client.put_object key content content_type s) s'
          up)
        (outcome (returned tt) s3_returned (client.delete_object key s') s'' down);
}

gcs_upload_succeeded : (r : GcsOutcome (Unit {0})) → gcs_upload_result r ≡ ok tt → r ≡ succeeded tt
gcs_upload_succeeded (succeeded u) h = refl
gcs_upload_succeeded precondition_failed h = cc
gcs_upload_succeeded gcs_not_found h = cc
gcs_upload_succeeded google_api_error h = cc

gcs_deleted :
    {S : Type 0} (r : GcsOutcome (Unit {0})) (s t : S)
    → Path (Result (Unit {0}) × S) (gcs_delete_result r, s) (ok tt, t)
    → Path (GcsOutcome (Unit {0}) × S) (r, s) (succeeded tt, t)
      ⊎ Path (GcsOutcome (Unit {0}) × S) (r, s) (GcsOutcome.gcs_not_found, t)
gcs_deleted (succeeded u) s t h = inl (ap (λ x. (succeeded tt, x)) (ap (λ y. y.1) h))
gcs_deleted gcs_not_found s t h = inr (ap (λ x. (GcsOutcome.gcs_not_found, x)) (ap (λ y. y.1) h))
gcs_deleted precondition_failed s t h = let k = ap (λ y. y.0) h in cc
gcs_deleted google_api_error s t h = let k = ap (λ y. y.0) h in cc

pub gcs_storage-StorageLaws :
    {S : Type 0} (client : GcsClient S) → GcsLaws client → StorageLaws (gcs_storage client)
gcs_storage-StorageLaws client laws = record {
  taken_back = λ key content_type content s s' s'' up down.
      laws.deleted key content_type content s s' s''
        (outcome (succeeded tt) gcs_upload_succeeded
          (client.upload_from_string key content content_type s) s' up)
        (gcs_deleted (client.delete_blob key s').0 (client.delete_blob key s').1 s'' down);
}
