-- ===== src/Tests/Formats.antt =====
-- Formats of times, identifiers and bytes that keep the laws which the cursors rest on.
use mathlib.Core.Option
use dalm_backend.Http.Access.{App, Settings}
use dalm_backend.Http.Cursors.{Codec, Text, equals_sign}
use dalm_backend.Http.Cursors.RoundTrip.{CodecLaws}
use dalm_backend.Models.{
  DateTime, Uuid, days, embedding_status_eq, notification_type_eq, photo_status_eq,
  report_target_eq, term_type_eq, user_status_eq, validation_status_eq,
}
use dalm_backend.Prelude.{
  All, Bool, List, Option, String, [], ap, arith, false, if◌then◌else◌, length, nat_eq, none,
  option_eq, refl, some, string_eq, true, ℕ, ◌%◌, ◌++◌, ◌+◌, ◌-◌, ◌/◌, ◌==◌, ◌∷◌, ◌≡◌,
}
use dalm_backend.Tokens.{TokenClaims}

-- Four characters to a number, and a last group that is padded.
abbrev pub coded : List ℕ → Text
coded [] = 66 ∷ 66 ∷ []
coded (b ∷ bs) = 65 ∷ 65 ∷ 65 ∷ (b + 62) ∷ coded bs

abbrev pub uncoded : Text → Option (List ℕ)
uncoded (a ∷ b ∷ c ∷ d ∷ rest) =
    let tail = uncoded rest in if a == 65 then Option.map (λ bs. (d - 62) ∷ bs) tail else some []
uncoded _ = none

abbrev pub read_time : Text → Option (DateTime × Bool)
read_time (c ∷ []) = some (c - 200, true)
read_time _ = none

abbrev pub read_id : Text → Option Uuid
read_id (c ∷ []) = some c
read_id _ = none

abbrev pub toy_codec : Codec
toy_codec = record {
  isoformat = λ t. (t + 200) ∷ [];
  fromisoformat = read_time;
  str_of_uuid = λ id. id ∷ [];
  parse_uuid = read_id;
  encode_utf8 = λ text. text;
  decode_utf8 = λ raw. some raw;
  b64encode = λ raw. coded raw ++ 61 ∷ 61 ∷ [];
  b64decode = uncoded;
}

read_back : (n : ℕ) (m : ℕ) → (n + m) - m ≡ n
read_back n m = omega arith

uncoded-coded : (raw : List ℕ) → uncoded (coded raw ++ 61 ∷ 61 ∷ []) ≡ some raw
uncoded-coded [] = refl
uncoded-coded (b ∷ bs) = rw (uncoded-coded bs, read_back b 62) refl

coded_clean : (raw : List ℕ) → All (λ c. (c == equals_sign) ≡ false) (coded raw)
coded_clean [] = (refl, (refl, tt))
coded_clean (b ∷ bs) = (refl, (refl, (refl, (ground arith, coded_clean bs))))

coded_fours : (raw : List ℕ) → (length (coded raw) + 2) % 4 ≡ 0
coded_fours [] = refl
coded_fours (b ∷ bs) = omega (arith, coded_fours bs)

pub toy_codec_laws : CodecLaws toy_codec
toy_codec_laws = record {
  time_read = λ t. ap (λ n. some (n, true)) (read_back t 200);
  no_bar = λ t. (ground arith, tt);
  uuid_read = λ id. refl;
  utf8_read = λ text. refl;
  b64_read = uncoded-coded;
  padded = λ raw. (coded raw, 2, refl, coded_clean raw, omega arith, coded_fours raw);
}

abbrev pub settings : Settings
settings = record {
  photo_max_bytes = 4;
  photo_min_width = 800;
  photo_min_height = 1000;
  photo_signed_url_ttl_seconds = 900;
  internal_api_key = some "k";
  mock_validation_on_upload = false;
  validation_max_attempts = 3;
  validation_retry_base_seconds = 30;
  validation_lease_seconds = 300;
}

abbrev pub subject_id : String → Option Uuid
subject_id s = if s == "1" then some 1 else if s == "2" then some 2 else none

abbrev pub app : App
app = record {
  settings = settings;
  codec = toy_codec;
  parse_subject = subject_id;
  str_of_id = λ id. if id == 1 then "1" else "2";
  seoul_date = λ t. t / days 1;
}

abbrev pub claims_of_user : String → TokenClaims
claims_of_user subject = record { subject = subject; token_id = "t"; token_type = "access" }
