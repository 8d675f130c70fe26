-- ===== src/TokenStore.antt =====
-- app/token_store.py `InMemoryRefreshTokenStore`: the refresh tokens that are active, each with its
-- subject. The asyncio lock makes every operation one step.
pub mod Laws
use dalm_backend.Models.{
  embedding_status_eq, notification_type_eq, photo_status_eq, report_target_eq, term_type_eq,
  user_status_eq, validation_status_eq,
}
use dalm_backend.Prelude.{
  Bool, List, Option, String, [], false, if◌then◌else◌, length, nat_eq, none, option_eq, some,
  string_eq, true, ℕ, ◌==◌, ◌∷◌,
}

-- `self._active`, a dict from token identifiers to subjects.
abbrev pub Active : Type 0
Active = List (String × String)

-- `self._active.get(token_id)`.
unfoldable pub lookup : String → Active → Option String
lookup token_id [] = none
lookup token_id ((id, owner) ∷ rest) = if id == token_id then some owner else lookup token_id rest

-- `self._active[token_id] = subject`, which keeps the place of a token that is there.
unfoldable pub insert : String → String → Active → Active
insert token_id subject [] = (token_id, subject) ∷ []
insert token_id subject ((id, owner) ∷ rest) =
    if id == token_id
    then (token_id, subject) ∷ rest
    else (id, owner) ∷ insert token_id subject rest

-- `del self._active[token_id]`.
unfoldable pub erase : String → Active → Active
erase token_id [] = []
erase token_id ((id, owner) ∷ rest) =
    if id == token_id then erase token_id rest else (id, owner) ∷ erase token_id rest

unfoldable pub register : String → String → Active → Active
register token_id subject active = insert token_id subject active

unfoldable pub rotate : String → String → String → Active → Bool × Active
rotate old_token_id new_token_id subject active =
    if lookup old_token_id active == some subject
    then (true, insert new_token_id subject (erase old_token_id active))
    else (false, active)

unfoldable pub revoke : String → String → Active → Bool × Active
revoke token_id subject active =
    if lookup token_id active == some subject
    then (true, erase token_id active)
    else (false, active)

-- The `token_ids` of a subject, and the deletion of each.
unfoldable pub owned : String → Active → List String
owned subject [] = []
owned subject ((k, v) ∷ m) = if v == subject then k ∷ owned subject m else owned subject m

unfoldable pub erase_all : List String → Active → Active
erase_all [] m = m
erase_all (k ∷ ks) m = erase_all ks (erase k m)

unfoldable pub revoke_all : String → Active → ℕ × Active
unfolding owned erase_all
revoke_all subject active =
    let token_ids = owned subject active in (length token_ids, erase_all token_ids active)
