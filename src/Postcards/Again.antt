-- ===== src/Postcards/Again.antt =====
-- Requests that repeat an idempotency key.
use dalm_backend.Models.{
  Postcard, Uuid, embedding_status_eq, notification_type_eq, photo_status_eq, report_target_eq,
  term_type_eq, user_status_eq, validation_status_eq,
}
use dalm_backend.Postcards.{
  Draft, PostcardRow, Seat, get_postcard, new_postcard, other_seat, seats, send, send_between,
  send_in, send_new, write_postcard,
}
use dalm_backend.Postcards.Turns.{send_in_ok}
use dalm_backend.Prelude.{
  ==_self, Bool, List, Option-cases, Rows-cases, [], ap, arith, false, inl, inr, is_some_and,
  nat_eq, option_eq, refl, select, select-append, some, string_eq, subst, sym, ◌&&◌, ◌==◌, ◌∙◌, ◌∷◌,
  ◌≡◌,
}
use dalm_backend.Store.{Db, Env, is_ok, ok, request, start}

-- The postcards that a user has sent under a key.
abbrev pub keyed : Uuid → Uuid → Postcard → Bool
keyed user_id key c = c.sender_id == user_id && is_some_and (λ k. k == key) c.idempotency_key

-- With a postcard under its key, a request is answered with what its user sees of it.
send_found :
    (e : Env) (d : Draft) (key : Uuid) (c : Postcard) (db : Db)
    → d.idempotency_key ≡ some key
    → select (keyed d.user_id key) db.postcards ≡ c ∷ []
    → request (send e d) db ≡ ((get_postcard d.user_id c.id (start db)).0, db)
unfolding send get_postcard
send_found e d key c db h found = rw (h, found) (ground arith)

send_not_found :
    (e : Env) (d : Draft) (key : Uuid) (db : Db)
    → d.idempotency_key ≡ some key
    → select (keyed d.user_id key) db.postcards ≡ []
    → request (send e d) db ≡ request (send_new e d) db
unfolding send
send_not_found e d key db h found = ground arith

send_many :
    (e : Env) (d : Draft) (key : Uuid) (c c' : Postcard) (r : List Postcard) (db : Db)
    → d.idempotency_key ≡ some key
    → select (keyed d.user_id key) db.postcards ≡ c ∷ c' ∷ r
    → is_ok (request (send e d) db).0 ≡ false
unfolding send
send_many e d key c c' r db h found = rw (h, found) refl

-- A new postcard is answered as its sender sees it in the tables that result.
send_between_answer :
    (e : Env) (d : Draft) (s t : Seat) (db : Db) (row : PostcardRow)
    → (send_between e d s t (start db)).0 ≡ ok row
    → (get_postcard d.user_id (e.uuid4 0) (start (send_between e d s t (start db)).1.committed)).0
      ≡ ok row
unfolding send_between get_postcard
send_between_answer e d s t db row h = elim (Option-cases (other_seat d.user_id s t)) [
  | inl nobody ↦ absurd (ground arith)
  | inr (r, found) ↦ ground arith
]

send_in_answer :
    (e : Env) (d : Draft) (rows : List Seat) (db : Db) (row : PostcardRow)
    → (send_in e d rows (start db)).0 ≡ ok row
    → (get_postcard d.user_id (e.uuid4 0) (start (send_in e d rows (start db)).1.committed)).0
      ≡ ok row
unfolding send_in
send_in_answer e d [] db row h = absurd (ground arith)
send_in_answer e d (s ∷ []) db row h = absurd (ground arith)
send_in_answer e d (s ∷ t ∷ []) db row h = send_between_answer e d s t db row h
send_in_answer e d (s ∷ t ∷ u ∷ rest) db row h = absurd (ground arith)

send_new_answer :
    (e : Env) (d : Draft) (db : Db) (row : PostcardRow)
    → (request (send_new e d) db).0 ≡ ok row
    → (get_postcard d.user_id (e.uuid4 0) (start (request (send_new e d) db).1)).0 ≡ ok row
unfolding send_new
send_new_answer e d db row h = send_in_answer e d (seats d.match_id db) db row h

send_new_written :
    (e : Env) (d : Draft) (db : Db) (row : PostcardRow)
    → (request (send_new e d) db).0 ≡ ok row
    → (receiver : Uuid) × ((request (send_new e d) db).1 ≡ write_postcard e d receiver db)
unfolding send_new
send_new_written e d db row h =
    let (s, t, rows, checked) = send_in_ok e d (seats d.match_id db) db row h in
    (checked.0, checked.4)

keyed-new :
    (e : Env) (d : Draft) (key receiver : Uuid) (db : Db)
    → d.idempotency_key ≡ some key
    → select (keyed d.user_id key) db.postcards ≡ []
    → select (keyed d.user_id key) (write_postcard e d receiver db).postcards
      ≡ new_postcard e d receiver ∷ []
keyed-new e d key receiver db h none_yet =
    select-append (keyed d.user_id key) db.postcards (new_postcard e d receiver ∷ [])
    ∙ rw (none_yet, h, ==_self d.user_id, ==_self key) refl

-- The one postcard that its sender sees under the key after a request that was answered with a row.
abbrev IsKept : Uuid → Uuid → PostcardRow → Db → Type 0
IsKept user_id key row db =
    (c : Postcard) × (select (keyed user_id key) db.postcards ≡ c ∷ [])
    × ((get_postcard user_id c.id (start db)).0 ≡ ok row)

send-IsKept :
    (e : Env) (d : Draft) (key : Uuid) (db : Db) (row : PostcardRow)
    → d.idempotency_key ≡ some key
    → (request (send e d) db).0 ≡ ok row
    → IsKept d.user_id key row (request (send e d) db).1
send-IsKept e d key db row h done = elim (Rows-cases (select (keyed d.user_id key) db.postcards)) [
  | inl none_yet ↦
      let same = send_not_found e d key db h none_yet in
      let done' = ap (λ r. r.0) (sym same) ∙ done in
      let (receiver, written) = send_new_written e d db row done' in
      subst (IsKept d.user_id key row) (ap (λ r. r.1) (sym same)) (
        new_postcard e d receiver,
        ap (λ t. select (keyed d.user_id key) t.postcards) written
            ∙ keyed-new e d key receiver db h none_yet,
        send_new_answer e d db row done',
      )
  | inr (inl (c, found)) ↦
      let same = send_found e d key c db h found in
      subst (IsKept d.user_id key row) (ap (λ r. r.1) (sym same))
        (c, found, ap (λ r. r.0) (sym same) ∙ done)
  | inr (inr (c, c', r, many)) ↦
      let failed = send_many e d key c c' r db h many in absurd (ground arith)
]

-- After a postcard that was sent with an idempotency key, a request of the same user with that key, at
-- any time and with any match and content, is answered with the same postcard and writes nothing.
pub send_again :
    (e e' : Env) (d d' : Draft) (key : Uuid) (db : Db) (row : PostcardRow)
    → d.idempotency_key ≡ some key
    → d'.idempotency_key ≡ some key
    → d'.user_id ≡ d.user_id
    → (request (send e d) db).0 ≡ ok row
    → let db' = (request (send e d) db).1 in request (send e' d') db' ≡ (ok row, db')
send_again e e' d d' key db row h h' user done =
    let db' = (request (send e d) db).1 in
    let (c, found, seen) =
      subst (λ u. IsKept u key row db') (sym user) (send-IsKept e d key db row h done) in
    send_found e' d' key c db' h' found ∙ ap (λ r. (r, db')) seen
