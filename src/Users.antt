-- ===== src/Users.antt =====
-- app/repositories.py `UserRepository`: accounts from sign-up to withdrawal.
pub mod SignUp
use dalm_backend.Models.{
  PhotoStatus, TermType, User, UserStatus, UserTerm, Uuid, embedding_status_eq,
  notification_type_eq, onboarding_required, photo_status_eq, report_target_eq, term_type_eq,
  user_status_eq, validation_status_eq,
}
use dalm_backend.Prelude.{
  Bool, List, Option, String, [], false, if◌then◌else◌, is_none, is_some, is_some_and, length,
  nat_eq, none, not, option_eq, select, some, string_eq, true, update_where, ℕ, ◌&&◌, ◌++◌, ◌==◌,
  ◌||◌, ◌∷◌,
}
use dalm_backend.Store.{
  Action, Code, Db, Env, Error, api_error, commit, commit_or, modify, ok, or_raise, pure, query,
  raise_if, satisfies_constraints, scalar_one_or_none, ◌>>=◌, ◌>>◌,
}

-- `try: commit() except IntegrityError: rollback()`, with whether the commit was made.
abbrev try_commit_if : Bool → Action Bool
try_commit_if true s = (ok true, record s { committed = s.working })
try_commit_if false s = (ok false, record s { working = s.committed })

abbrev try_commit : Action Bool
try_commit s = try_commit_if (satisfies_constraints s.working) s

abbrev pub new_user : Env → Option String → Option String → User
new_user e kakao_id apple_id = record {
  id = e.uuid4 0;
  kakao_id = kakao_id;
  apple_id = apple_id;
  nickname = none;
  profile_image_key = none;
  bio = none;
  marketing_agreed = false;
  status = UserStatus.active;
  created_at = e.db_now;
  updated_at = e.db_now;
  withdrawn_at = none;
}

abbrev pub has_id : Option String → String → Bool
has_id column id = is_some_and (λ c. c == id) column

unfoldable pub get_by_kakao_id : String → Action (Option User)
get_by_kakao_id kakao_id = do
  rows ← query (λ db. select (λ u. has_id u.kakao_id kakao_id) db.users)
  scalar_one_or_none rows

unfoldable pub get_by_apple_id : String → Action (Option User)
get_by_apple_id apple_id = do
  rows ← query (λ db. select (λ u. has_id u.apple_id apple_id) db.users)
  scalar_one_or_none rows

abbrev pub add_user : User → Db → Db
add_user u db = record db { users = db.users ++ u ∷ [] }

-- The end of `create_from_kakao` and `create_from_apple`.
unfoldable pub create_or_find : User → Action (Option User) → Action User
create_or_find u find = do
  modify (add_user u)
  is_new ← try_commit
  if is_new then pure u else (do existing ← find; or_raise existing Error.integrity_error)

unfoldable pub create_from_kakao : Env → String → Action User
unfolding create_or_find get_by_kakao_id
create_from_kakao e kakao_id =
    create_or_find (new_user e (some kakao_id) none) (get_by_kakao_id kakao_id)

unfoldable pub create_from_apple : Env → String → Action User
unfolding create_or_find get_by_apple_id
create_from_apple e apple_id =
    create_or_find (new_user e none (some apple_id)) (get_by_apple_id apple_id)

unfoldable pub get_by_id : Uuid → Action (Option User)
get_by_id user_id = do
  rows ← query (λ db. select (λ u. u.id == user_id) db.users)
  scalar_one_or_none rows

abbrev pub update_user : Uuid → (User → User) → Db → Db
update_user id f db = record db { users = update_where (λ u. u.id == id) f db.users }

abbrev pub is_withdrawn : User → Bool
is_withdrawn u = u.status == UserStatus.withdrawn

-- `if user is None or user.status == "WITHDRAWN": raise …`.
unfoldable pub get_member : Uuid → Action User
unfolding get_by_id
get_member user_id = do
  found ← get_by_id user_id
  user ← or_raise found (api_error 404 Code.user_not_found)
  raise_if (is_withdrawn user) (api_error 404 Code.user_not_found)
  pure user

pub record Onboarding : Type 0 where
  pub nickname : String
  pub bio : Option String
  pub marketing_agreed : Bool
  pub service_terms_version : String
  pub privacy_policy_version : String

abbrev pub onboarded : Env → Onboarding → User → User
onboarded e b u = record u {
  nickname = some b.nickname;
  bio = b.bio;
  marketing_agreed = b.marketing_agreed;
  updated_at = e.db_now;
}

abbrev pub user_term : Env → Uuid → Uuid → TermType → String → Bool → UserTerm
user_term e id user_id kind version agreed = record {
  id = id;
  user_id = user_id;
  term_type = kind;
  term_version = version;
  agreed = agreed;
  agreed_at = e.db_now;
}

abbrev pub agreed_terms : Env → Uuid → Onboarding → List UserTerm
agreed_terms e user_id b =
    user_term e (e.uuid4 0) user_id TermType.service b.service_terms_version true
    ∷ user_term e (e.uuid4 1) user_id TermType.privacy b.privacy_policy_version true
    ∷ user_term e (e.uuid4 2) user_id TermType.age_14 "1" true
    ∷ user_term e (e.uuid4 3) user_id TermType.marketing "1" b.marketing_agreed
    ∷ []

unfoldable pub complete_onboarding : Env → Uuid → Onboarding → Action User
unfolding get_member
complete_onboarding e user_id b = do
  user ← get_member user_id
  raise_if (not (onboarding_required user)) (api_error 409 Code.onboarding_already_completed)
  modify λ db. record (update_user user.id (onboarded e b) db) {
    user_terms = db.user_terms ++ agreed_terms e user_id b;
  }
  commit_or (api_error 409 Code.nickname_conflict)
  pure (onboarded e b user)

pub record ProfileUpdate : Type 0 where
  pub nickname : Option String
  pub bio : Option String
  pub update_bio : Bool

abbrev pub is_change : ProfileUpdate → User → Bool
is_change b u =
    is_some b.nickname && not (b.nickname == u.nickname) || b.update_bio && not (b.bio == u.bio)

-- `onupdate=func.now()` applies where a column changes.
abbrev pub updated_profile : Env → ProfileUpdate → User → User
updated_profile e b u = record u {
  nickname = if is_some b.nickname then b.nickname else u.nickname;
  bio = if b.update_bio then b.bio else u.bio;
  updated_at = if is_change b u then e.db_now else u.updated_at;
}

unfoldable pub update_profile : Env → Uuid → ProfileUpdate → Action User
unfolding get_member
update_profile e user_id b = do
  user ← get_member user_id
  raise_if (onboarding_required user) (api_error 409 Code.onboarding_required)
  modify (update_user user.id (updated_profile e b))
  commit_or (api_error 409 Code.nickname_conflict)
  pure (updated_profile e b user)

abbrev pub withdrawn_user : Env → User → User
withdrawn_user e u = record u {
  status = UserStatus.withdrawn;
  nickname = none;
  bio = none;
  profile_image_key = none;
  updated_at = e.db_now;
  withdrawn_at = some e.now;
}

unfoldable pub withdraw : Env → Uuid → Action (Unit {0})
unfolding get_member
withdraw e user_id = do
  user ← get_member user_id
  modify (update_user user.id (withdrawn_user e))
  commit

-- The photos, the matches that are not hidden, and the received postcards, which are not counted.
unfoldable pub get_stats : Uuid → Action (ℕ × ℕ × ℕ)
get_stats user_id = query λ db. (
  length (select (λ p. p.user_id == user_id && not (p.status == PhotoStatus.deleted)) db.photos),
  length (select (λ m. m.user_id == user_id && is_none m.hidden_at) db.match_participants),
  0,
)
