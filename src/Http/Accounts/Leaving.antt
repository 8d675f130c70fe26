-- ===== src/Http/Accounts/Leaving.antt =====
-- What a withdrawal ends.
use dalm_backend.Http.Access.{App, authenticated_user_id, with_user}
use dalm_backend.Http.Accounts.{revoke_after, withdraw_my_account}
use dalm_backend.Models.{
  User, UserStatus, Uuid, embedding_status_eq, notification_type_eq, photo_status_eq,
  report_target_eq, term_type_eq, user_status_eq, validation_status_eq,
}
use dalm_backend.Photos.{Upload, create_photo, get_user}
use dalm_backend.Prelude.{
  All, All-head?, All-selected, Option-cases, Rows-cases, String, [], ap, arith, false, inl, inr,
  nat_eq, option_beq_iff, option_eq, refl, select, select-passes, some, string_eq, subst, sym, true,
  update_where, update_where-All, ◌==◌, ◌∙◌, ◌∷◌, ◌≡◌,
}
use dalm_backend.Store.{Code, Db, Env, Result, Result-cases, api_error, err, ok, request}
use dalm_backend.TokenStore.{Active, lookup, revoke_all, rotate}
use dalm_backend.TokenStore.Laws.{IsDict, revoke_all_lem, rotate_lem}
use dalm_backend.Tokens.{TokenClaims}
use dalm_backend.Users.{get_by_id, get_member, withdraw, withdrawn_user}

-- Every account under an identifier is withdrawn.
abbrev pub AllWithdrawn : Uuid → Db → Type 0
AllWithdrawn id db =
    All (λ (u : User). (u.id == id) ≡ true → u.status ≡ UserStatus.withdrawn) db.users

withdraw_ok :
    (e : Env) (id : Uuid) (db : Db)
    → (request (withdraw e id) db).0 ≡ ok tt
    → AllWithdrawn id (request (withdraw e id) db).1
unfolding withdraw get_member get_by_id
withdraw_ok e id db h = elim (Rows-cases (select (λ (u : User). u.id == id) db.users)) [
  | inl nobody ↦ absurd (ground arith)
  | inr (inr (u, v, r, many)) ↦ absurd (ground arith)
  | inr (inl (u, found)) ↦
      let passes : All (λ (w : User). (w.id == id) ≡ true) (u ∷ []) =
        rw found at (select-passes (λ (w : User). w.id == id) db.users) in
      let same : u.id ≡ id = ground (arith, passes.0) in
      let written : (request (withdraw e id) db).1.users
          ≡ update_where (λ (w : User). w.id == id) (withdrawn_user e) db.users =
        ground arith in
      subst (All (λ (w : User). (w.id == id) ≡ true → w.status ≡ UserStatus.withdrawn))
        (sym written)
        (update_where-All (λ (w : User). w.status ≡ UserStatus.withdrawn) (λ (w : User). w.id == id)
          (withdrawn_user e) db.users (λ w. refl))
]

-- An upload for a withdrawn account is refused.
upload_refused :
    (e : Env) (u : Upload) (db : Db)
    → AllWithdrawn u.user_id db
    → request (create_photo e u) db ≡ (err (api_error 403 Code.account_not_active), db)
unfolding create_photo
upload_refused e u db h =
    let rows : All (λ (w : User). w.status ≡ UserStatus.withdrawn)
        (select (λ (w : User). w.id == u.user_id) db.users) =
      All-selected (λ (w : User). w.status ≡ UserStatus.withdrawn) (λ (w : User). w.id == u.user_id)
        db.users h in
    elim (Option-cases (get_user u.user_id db)) [
      | inl nobody ↦ ground arith
      | inr (w, found) ↦
          let gone : w.status ≡ UserStatus.withdrawn = All-head? _ _ w found rows in ground arith
    ]

revoked_refused :
    (token new subject : String) (active : Active)
    → IsDict active
    → rotate token new subject (revoke_all subject active).1
      ≡ (false, (revoke_all subject active).1)
revoked_refused token new subject active dict =
    elim (rotate_lem token new subject (revoke_all subject active).1) [
      | inr (refused, same) ↦ same
      | inl (there, taken, after) ↦
          let gone = (revoke_all_lem subject active dict).1 token in
          absurd (ground (arith, option_beq_iff (lookup token active) (some subject)))
    ]

-- No refresh token of a subject can be exchanged for another, every account under an identifier is
-- withdrawn, and every upload of that user is refused, whenever it comes.
abbrev pub HasLeft : String → Uuid → Db → Active → Type 0
HasLeft subject id db active =
    ((token new : String) → rotate token new subject active ≡ (false, active))
    × AllWithdrawn id db
    × ((e : Env) (u : Upload)
        → request (create_photo e (record u { user_id = id })) db
          ≡ (err (api_error 403 Code.account_not_active), db))

-- After a withdrawal that succeeds, where each refresh token stands once: no refresh token of the
-- account can be exchanged for a new one, every account under the user's identifier is withdrawn,
-- and every later upload of that user is refused and writes nothing.
pub withdraw_my_account_ends :
    (app : App) (e : Env) (claims : TokenClaims) (id : Uuid) (db : Db) (active : Active)
    → app.parse_subject claims.subject ≡ some id
    → IsDict active
    → (withdraw_my_account app e claims db active).0 ≡ ok tt
    → HasLeft claims.subject id
        (withdraw_my_account app e claims db active).1
        (withdraw_my_account app e claims db active).2
unfolding withdraw_my_account authenticated_user_id
withdraw_my_account_ends app e claims id db active named dict h =
    elim (Result-cases (request (withdraw e id) db).0) [
      | inl (x, failed) ↦
          let refused : withdraw_my_account app e claims db active
              ≡ (err x, (request (withdraw e id) db).1, active) =
            on_behalf ∙ rw failed refl in
          let h' : Path (Result (Unit {0})) (err x) (ok tt) = rw refused at h in
          absurd (ground arith)
      | inr (u, left) ↦
          let done : withdraw_my_account app e claims db active
              ≡ (ok tt, (request (withdraw e id) db).1, (revoke_all claims.subject active).1) =
            on_behalf ∙ rw left refl in
          rw done (
            (λ token new. revoked_refused token new claims.subject active dict),
            withdraw_ok e id db left,
            (λ later u.
                upload_refused later (record u { user_id = id }) (request (withdraw e id) db).1
                  (withdraw_ok e id db left)),
          )
    ]
  where
    on_behalf :
        withdraw_my_account app e claims db active
        ≡ revoke_after claims.subject active (request (withdraw e id) db)
    on_behalf =
        let inner : request (with_user app claims (withdraw e)) db ≡ request (withdraw e id) db =
          rw named refl in
        ap (revoke_after claims.subject active) inner
