-- ===== src/Matching.antt =====
-- app/matching.py: two photos that search become a match.
pub mod Outcome
use dalm_backend.Models.{
  Block, DateTime, MatchParticipant, NotificationType, Photo, PhotoStatus, Uuid,
  embedding_status_eq, notification_type_eq, photo_status_eq, report_target_eq, term_type_eq,
  user_status_eq, validation_status_eq,
}
use dalm_backend.Notifications.{add_notification, event_notification}
use dalm_backend.Prelude.{
  Bool, List, String, [], any, if◌then◌else◌, is_empty, is_none, is_some_and, leb, nat_eq, none,
  not, option_eq, order_by, select, string_eq, strip, ◌&&◌, ◌++◌, ◌==◌, ◌||◌, ◌∷◌,
}
use dalm_backend.Store.{
  Action, Code, Db, Env, api_error, commit, err, modify, ok, pure, query, raise, raise_if,
  update_photo, ◌>>=◌, ◌>>◌,
}

abbrev pub are_blocked : Uuid → Uuid → Db → Bool
are_blocked a b db =
    any
      (λ (k : Block).
        k.blocker_id == a && k.blocked_id == b || k.blocker_id == b && k.blocked_id == a)
      db.blocks

abbrev pub is_over : DateTime → Photo → Bool
is_over now p = is_none p.search_expires_at || is_some_and (λ t. leb t now) p.search_expires_at

abbrev pub participant : Uuid → Photo → MatchParticipant
participant match_id p = record {
  match_id = match_id;
  user_id = p.user_id;
  photo_id = p.id;
  viewed_at = none;
  hidden_at = none;
}

abbrev pub matched_photo : Photo → Photo
matched_photo p = record p { status = PhotoStatus.matched }

-- What `finalize` writes; the first identifier drawn is the match's.
abbrev pub write_match : Env → String → Photo → Photo → Db → Db
write_match e explanation p q db =
    let match_id = e.uuid4 0 in
    add_notification (event_notification e (e.uuid4 2) q.user_id NotificationType.matched match_id)
      (add_notification
        (event_notification e (e.uuid4 1) p.user_id NotificationType.matched match_id)
        (update_photo q.id matched_photo (
          update_photo p.id matched_photo (record db {
            matches =
                db.matches
                ++ record { id = match_id; explanation = explanation; matched_at = e.db_now } ∷ [];
            match_participants =
                db.match_participants ++ participant match_id p ∷ participant match_id q ∷ [];
          }))))

-- The part of `finalize` on the two locked rows.
unfoldable pub finalize_pair : Env → String → DateTime → Photo → Photo → Action Uuid
finalize_pair e explanation now p q = do
  raise_if (p.user_id == q.user_id) (api_error 409 Code.same_user_match)
  raise_if (not (p.status == PhotoStatus.searching) || not (q.status == PhotoStatus.searching))
      (api_error 409 Code.match_candidate_changed)
  raise_if (is_over now p || is_over now q) (api_error 409 Code.search_period_expired)
  blocked ← query (are_blocked p.user_id q.user_id)
  raise_if blocked (api_error 409 Code.user_blocked)
  modify (write_match e explanation p q)
  commit
  pure (e.uuid4 0)

-- `len(photos) != 2`.
unfoldable pub finalize_rows : Env → String → DateTime → List Photo → Action Uuid
unfolding finalize_pair
finalize_rows e explanation now [] = raise (api_error 404 Code.match_photo_not_found)
finalize_rows e explanation now (p ∷ []) = raise (api_error 404 Code.match_photo_not_found)
finalize_rows e explanation now (p ∷ q ∷ []) = finalize_pair e explanation now p q
finalize_rows e explanation now (p ∷ q ∷ r ∷ rs) = raise (api_error 404 Code.match_photo_not_found)

-- `SqlMatchFinalizationStore.finalize`, with its `except: rollback(); raise`.
unfoldable pub finalize : Env → Uuid → Uuid → String → DateTime → Action Uuid
unfolding finalize_rows
finalize e first second explanation now s =
    let rows =
      order_by (λ p q. leb p.id q.id)
        (select (λ p. p.id == first || p.id == second) s.working.photos) in
    let (r, s') = finalize_rows e explanation now rows s in
    elim r [ ok id ↦ (ok id, s') | err x ↦ (err x, record s' { working = s'.committed }) ]

-- `sorted((first, second), key=str)` hands the two over in their order.
unfoldable pub finalize_match : Env → Uuid → Uuid → String → DateTime → Action Uuid
unfolding finalize
finalize_match e first second explanation now =
    if first == second
    then raise (api_error 409 Code.same_photo_match)
    else if is_empty (strip explanation)
    then raise (api_error 422 Code.match_explanation_required)
    else if leb first second
    then finalize e first second (strip explanation) now
    else finalize e second first (strip explanation) now
