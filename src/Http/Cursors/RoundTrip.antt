-- ===== src/Http/Cursors/RoundTrip.antt =====
-- A cursor that is encoded is decoded to itself.
use dalm_backend.Http.Cursors.{
  Codec, Text, bar, cursor_or_error, decode_cursor, encode_cursor, equals_sign, missing,
  parse_cursor, parse_halves, parse_padded, repeat, rstrip_padding, split_bar, strip_before,
}
use dalm_backend.Models.{
  DateTime, Uuid, embedding_status_eq, notification_type_eq, photo_status_eq, report_target_eq,
  term_type_eq, user_status_eq, validation_status_eq,
}
use dalm_backend.Pages.{Cursor}
use dalm_backend.Prelude.{
  All, List, [], ap, arith, false, length, nat_eq, option_eq, refl, some, string_eq, suc, true,
  zero, ℕ, ◌%◌, ◌++◌, ◌+◌, ◌<◌, ◌==◌, ◌∙◌, ◌∷◌, ◌≡◌,
}
use dalm_backend.Store.{ok}

-- What is documented of the formats: a time that has a zone is written without a bar and read back,
-- and so are identifiers and UTF-8; base64 is read back, and its text is padded with at most three
-- equals signs, which stand nowhere else in it, to a multiple of four characters.
pub record CodecLaws (codec : Codec) : Type 0 where
  pub time_read : (t : DateTime) → codec.fromisoformat (codec.isoformat t) ≡ some (t, true)
  pub no_bar : (t : DateTime) → All (λ c. (c == bar) ≡ false) (codec.isoformat t)
  pub uuid_read : (id : Uuid) → codec.parse_uuid (codec.str_of_uuid id) ≡ some id
  pub utf8_read : (text : Text) → codec.decode_utf8 (codec.encode_utf8 text) ≡ some text
  pub b64_read : (raw : List ℕ) → codec.b64decode (codec.b64encode raw) ≡ some raw
  pub padded :
      (raw : List ℕ)
      → (body : Text) × (k : ℕ) × (codec.b64encode raw ≡ body ++ repeat k equals_sign)
        × All (λ c. (c == equals_sign) ≡ false) body
        × (k < 4)
        × ((length body + k) % 4 ≡ 0)

split_bar-append :
    (xs ys : Text) → All (λ c. (c == bar) ≡ false) xs → split_bar (xs ++ bar ∷ ys) ≡ some (xs, ys)
unfolding split_bar
split_bar-append [] ys h = refl
split_bar-append (x ∷ xs) ys h = rw (h.0, split_bar-append xs ys h.1) refl

rstrip-repeat : (k : ℕ) → rstrip_padding (repeat k equals_sign) ≡ []
unfolding rstrip_padding
rstrip-repeat zero = refl
rstrip-repeat (suc k) = rw (rstrip-repeat k) refl

-- Stripping the padding leaves the body.
rstrip-body :
    (body : Text) (k : ℕ)
    → All (λ c. (c == equals_sign) ≡ false) body
    → rstrip_padding (body ++ repeat k equals_sign) ≡ body
unfolding rstrip_padding
rstrip-body [] k h = rstrip-repeat k
rstrip-body (c ∷ []) k h = ap (strip_before c) (rstrip-repeat k) ∙ rw h.0 refl
rstrip-body (c ∷ d ∷ cs) k h = ap (strip_before c) (rstrip-body (d ∷ cs) k h.1)

missing_lem : (n k : ℕ) → k < 4 → (n + k) % 4 ≡ 0 → missing n ≡ k
missing_lem n k h1 h2 = omega arith

module _ (codec : Codec) (laws : CodecLaws codec) where
  -- The padding that decoding adds is the padding that encoding strips.
  padding_restored :
      (raw : List ℕ)
      → let value = rstrip_padding (codec.b64encode raw) in
        value ++ repeat (missing (length value)) equals_sign ≡ codec.b64encode raw
  padding_restored raw =
      let (body, k, shape, clean, few, fours) = laws.padded raw in
      rw (shape, rstrip-body body k clean, missing_lem (length body) k few fours) refl

  halves_read :
      (c : Cursor) → parse_halves codec (codec.isoformat c.at, codec.str_of_uuid c.id) ≡ some c
  unfolding parse_halves
  halves_read c = rw (laws.time_read c.at, laws.uuid_read c.id) refl

  padded_read :
      (c : Cursor) (raw : List ℕ)
      → raw ≡ codec.encode_utf8 (codec.isoformat c.at ++ bar ∷ codec.str_of_uuid c.id)
      → parse_padded codec (codec.b64encode raw) ≡ some c
  unfolding parse_padded
  padded_read c raw h =
      rw
        (
          laws.b64_read raw,
          h,
          laws.utf8_read (codec.isoformat c.at ++ bar ∷ codec.str_of_uuid c.id),
          split_bar-append (codec.isoformat c.at) (codec.str_of_uuid c.id) (laws.no_bar c.at),
        )
        (halves_read c)

  -- With formats that are read back as documented: decoding what a cursor is encoded to gives
  -- the cursor, whatever its time and identifier, so the padding that is stripped is restored.
  pub decode_cursor-encode :
      (c : Cursor) → decode_cursor codec (some (encode_cursor codec c)) ≡ ok (some c)
  unfolding decode_cursor encode_cursor parse_cursor
  decode_cursor-encode c =
      let raw = codec.encode_utf8 (codec.isoformat c.at ++ bar ∷ codec.str_of_uuid c.id) in
      ap (cursor_or_error codec)
        (ap (parse_padded codec) (padding_restored raw) ∙ padded_read c raw refl)
