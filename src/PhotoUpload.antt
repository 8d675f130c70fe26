-- ===== src/PhotoUpload.antt =====
-- app/photo_upload.py: the checks of an uploaded image. Pillow and SHA-256 are parameters.
use dalm_backend.Models.{
  embedding_status_eq, notification_type_eq, photo_status_eq, report_target_eq, term_type_eq,
  user_status_eq, validation_status_eq,
}
use dalm_backend.Prelude.{
  Bool, List, Option, String, false, if◌then◌else◌, length, ltb, nat_eq, none, not, option_eq, some,
  string_eq, ℕ, ◌==◌, ◌||◌,
}
use dalm_backend.Store.{Code, Error, Result, api_error, err, ok}

abbrev pub Bytes : Type 0
Bytes = List ℕ

-- What the code asks of Pillow; where a call raises one of the errors that are caught, it gives
-- nothing. `is_off_ratio w h` is `abs(w / h - 0.8) > 0.01` in floats.
pub record Pillow : Type 0 where
  pub format : Bytes → Option (Option String)
  pub verify : Bytes → Bool
  pub transposed_size : Bytes → Option (ℕ × ℕ)
  pub save_webp : Bytes → Option Bytes
  pub is_off_ratio : ℕ → ℕ → Bool
  pub sha256 : Bytes → String

pub record ProcessedPhoto : Type 0 where
  pub content : Bytes
  pub content_type : String
  pub checksum : String
  pub width : ℕ
  pub height : ℕ

-- `content_type not in SUPPORTED_CONTENT_TYPES`, negated.
abbrev pub is_supported : Option String → Bool
is_supported none = false
is_supported (some t) = t == "image/jpeg" || t == "image/png" || t == "image/webp"

-- `FORMAT_CONTENT_TYPES.get(source.format or "")`.
abbrev pub format_content_type : Option String → Option String
format_content_type none = none
format_content_type (some f) =
    if f == "JPEG"
    then some "image/jpeg"
    else if f == "PNG"
    then some "image/png"
    else if f == "WEBP"
    then some "image/webp"
    else none

abbrev pub invalid_image : Error
invalid_image = api_error 422 Code.invalid_image

module _ (pillow : Pillow) where
  -- The first `with`: the type that is found in the content, and its verification.
  unfoldable pub check_format : Bytes → Option String → Result (Unit {0})
  check_format content content_type = elim (pillow.format content) [
    | none ↦ err invalid_image
    | some found ↦
        if not (format_content_type found == content_type)
        then err (api_error 415 Code.image_content_type_mismatch)
        else if pillow.verify content
        then ok tt
        else err invalid_image
  ]

  -- The second `with`.
  unfoldable pub sanitize : Bytes → ℕ → ℕ → Result ProcessedPhoto
  sanitize content min_width min_height = elim (pillow.transposed_size content) [
    | none ↦ err invalid_image
    | some (width, height) ↦
        if ltb width min_width || ltb height min_height
        then err (api_error 422 Code.image_resolution_too_small)
        else if pillow.is_off_ratio width height
        then err (api_error 422 Code.invalid_image_ratio)
        else elim (pillow.save_webp content) [
          | none ↦ err invalid_image
          | some sanitized ↦ ok (record {
            content = sanitized;
            content_type = "image/webp";
            checksum = pillow.sha256 sanitized;
            width = width;
            height = height;
          })
        ]
  ]

  unfoldable pub process_photo : Bytes → Option String → ℕ → ℕ → ℕ → Result ProcessedPhoto
  unfolding check_format sanitize
  process_photo content content_type max_bytes min_width min_height =
      if ltb max_bytes (length content)
      then err (api_error 413 Code.image_too_large)
      else if not (is_supported content_type)
      then err (api_error 415 Code.unsupported_image_format)
      else elim (check_format content content_type) [
        | err e ↦ err e
        | ok _ ↦ sanitize content min_width min_height
      ]
