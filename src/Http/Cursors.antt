-- ===== src/Http/Cursors.antt =====
-- app/main.py `encode_cursor` and `decode_cursor`. A text is the list of its code points; the
-- formats of times, identifiers, UTF-8 and base64 are parameters.
use mathlib.Core.Option
use dalm_backend.Models.{
  DateTime, Uuid, embedding_status_eq, notification_type_eq, photo_status_eq, report_target_eq,
  term_type_eq, user_status_eq, validation_status_eq,
}
use dalm_backend.Pages.{Cursor}
use dalm_backend.Prelude.{
  Bool, List, Option, [], if◌then◌else◌, length, nat_eq, none, option_eq, some, string_eq, suc,
  zero, ℕ, ◌%◌, ◌++◌, ◌-◌, ◌==◌, ◌∷◌,
}
use dalm_backend.Store.{Code, Error, Result, api_error, err, ok, ◌>>◌}
pub mod RoundTrip

abbrev pub Text : Type 0
Text = List ℕ

abbrev pub bar : ℕ
bar = 124

abbrev pub equals_sign : ℕ
equals_sign = 61

-- `isoformat`, `fromisoformat` (with whether the time has a zone), `str` and `UUID` on identifiers,
-- `encode`, `decode`, `urlsafe_b64encode` and `urlsafe_b64decode`.
pub record Codec : Type 0 where
  pub isoformat : DateTime → Text
  pub fromisoformat : Text → Option (DateTime × Bool)
  pub str_of_uuid : Uuid → Text
  pub parse_uuid : Text → Option Uuid
  pub encode_utf8 : Text → List ℕ
  pub decode_utf8 : List ℕ → Option Text
  pub b64encode : List ℕ → Text
  pub b64decode : Text → Option (List ℕ)

abbrev pub repeat : ℕ → ℕ → Text
repeat zero c = []
repeat (suc n) c = c ∷ repeat n c

-- `rstrip("=")`: a character in front of what is left of the rest.
abbrev pub strip_before : ℕ → Text → Text
strip_before c [] = if c == equals_sign then [] else c ∷ []
strip_before c (d ∷ ds) = c ∷ d ∷ ds

unfoldable pub rstrip_padding : Text → Text
rstrip_padding [] = []
rstrip_padding (c ∷ cs) = strip_before c (rstrip_padding cs)

-- `-n % 4`.
abbrev pub missing : ℕ → ℕ
missing n = (4 - n % 4) % 4

-- `split("|", 1)`, where there is a bar.
unfoldable pub split_bar : Text → Option (Text × Text)
split_bar [] = none
split_bar (c ∷ cs) =
    let rest = split_bar cs in
    if c == bar then some ([], cs) else Option.map (λ halves. (c ∷ halves.0, halves.1)) rest

abbrev pub invalid_cursor : Error
invalid_cursor = api_error 422 Code.invalid_cursor

infixl 5 ◌>>=◌
abbrev ◌>>=◌ : {A B : Type 0} → Option A → (A → Option B) → Option B
none >>= f = none
some a >>= f = f a

module _ (codec : Codec) where
  unfoldable pub encode_cursor : Cursor → Text
  unfolding rstrip_padding
  encode_cursor c =
      rstrip_padding
        (codec.b64encode (codec.encode_utf8 (codec.isoformat c.at ++ bar ∷ codec.str_of_uuid c.id)))

  -- The text between the two sides of the bar, read as a time with a zone and an identifier.
  unfoldable pub parse_halves : Text × Text → Option Cursor
  parse_halves halves = do
    parsed ← codec.fromisoformat halves.0
    photo_id ← codec.parse_uuid halves.1
    if parsed.1 then some (record { at = parsed.0; id = photo_id }) else none

  unfoldable pub parse_padded : Text → Option Cursor
  unfolding split_bar parse_halves
  parse_padded padded = do
    raw ← codec.b64decode padded
    text ← codec.decode_utf8 raw
    halves ← split_bar text
    parse_halves halves

  -- The body of the `try`.
  unfoldable pub parse_cursor : Text → Option Cursor
  unfolding parse_padded
  parse_cursor value = parse_padded (value ++ repeat (missing (length value)) equals_sign)

  -- Its errors are caught.
  abbrev pub cursor_or_error : Option Cursor → Result (Option Cursor)
  cursor_or_error none = err invalid_cursor
  cursor_or_error (some c) = ok (some c)

  unfoldable pub decode_cursor : Option Text → Result (Option Cursor)
  unfolding parse_cursor
  decode_cursor none = ok none
  decode_cursor (some value) = cursor_or_error (parse_cursor value)
