-- ===== src/Postcards/Turns.antt =====
-- Whose turn it is to send a postcard.
use dalm_backend.Matching.{are_blocked}
use dalm_backend.Models.{
  DateTime, Postcard, Uuid, embedding_status_eq, notification_type_eq, photo_status_eq,
  report_target_eq, term_type_eq, user_status_eq, validation_status_eq,
}
use dalm_backend.Postcards.{
  Draft, PostcardRow, Seat, get_postcard, last_sender, new_postcard, other_seat, seats,
  send_between, send_in, send_new, sent_later, write_postcard,
}
use dalm_backend.Prelude.{
  ==_self, All, Bool-cases, List, Option-cases, [], ap, arith, false, head?, inl, inr, nat_eq,
  option_eq, order_by, order_by-last, refl, select, select-append, some, string_eq, subst, sym,
  true, ◌++◌, ◌<◌, ◌==◌, ◌||◌, ◌∙◌, ◌∷◌, ◌≡◌,
}
use dalm_backend.Store.{Code, Db, Env, api_error, err, ok, request, start}

-- Every postcard of the match was sent before a time.
abbrev pub SentBefore : Uuid → DateTime → Db → Type 0
SentBefore match_id t db =
    All (λ (c : Postcard). c.match_id ≡ match_id → c.sent_at < t) db.postcards

last_sender-write :
    (e : Env) (d : Draft) (receiver : Uuid) (db : Db)
    → SentBefore d.match_id e.db_now db
    → last_sender d.match_id (write_postcard e d receiver db) ≡ some d.user_id
unfolding last_sender
last_sender-write e d receiver db h =
    rw
      (
        select-append (λ (c : Postcard). c.match_id == d.match_id) db.postcards
            (new_postcard e d receiver ∷ []),
        ==_self d.match_id,
        newest,
      )
      refl
  where
    earlier_all :
        All
          (λ (c : Postcard). sent_later c (new_postcard e d receiver) ≡ false)
          (select (λ (c : Postcard). c.match_id == d.match_id) db.postcards)
    earlier_all = go db.postcards h
      where
        go :
            (cs : List Postcard)
            → All (λ c. c.match_id ≡ d.match_id → c.sent_at < e.db_now) cs
            → All
                (λ c. sent_later c (new_postcard e d receiver) ≡ false)
                (select (λ (c : Postcard). c.match_id == d.match_id) cs)
        go [] k = tt
        go (c ∷ cs) k = elim (Bool-cases (c.match_id == d.match_id)) [
          | inl same ↦ rw same (ground (arith, k.0), go cs k.1)
          | inr other ↦ rw other (go cs k.1)
        ]

    newest :
        head? (
          order_by sent_later (
            select (λ (c : Postcard). c.match_id == d.match_id) db.postcards
            ++ new_postcard e d receiver ∷ []))
        ≡ some (new_postcard e d receiver)
    newest =
        order_by-last sent_later (new_postcard e d receiver)
          (select (λ (c : Postcard). c.match_id == d.match_id) db.postcards) earlier_all

-- What a postcard that is sent has been checked for, and what is written.
abbrev pub IsSent : Env → Draft → Seat → Seat → Db → Db → Type 0
IsSent e d s t db db' =
    (receiver : Uuid) × (other_seat d.user_id s t ≡ some receiver)
    × ((s.user_id == d.user_id || t.user_id == d.user_id) ≡ true)
    × (are_blocked d.user_id receiver db ≡ false)
    × (db' ≡ write_postcard e d receiver db)

send_between_ok :
    (e : Env) (d : Draft) (s t : Seat) (db : Db) (row : PostcardRow)
    → (send_between e d s t (start db)).0 ≡ ok row
    → IsSent e d s t db (send_between e d s t (start db)).1.committed
unfolding send_between get_postcard
send_between_ok e d s t db row h = elim (Option-cases (other_seat d.user_id s t)) [
  | inl nobody ↦ absurd (ground arith)
  | inr (r, found) ↦ (r, found, ground arith, ground arith, ground arith)
]

-- With the user's own postcard as the last, another one is refused.
send_between_refused :
    (e : Env) (d : Draft) (s t : Seat) (receiver : Uuid) (db : Db)
    → other_seat d.user_id s t ≡ some receiver
    → (s.user_id == d.user_id || t.user_id == d.user_id) ≡ true
    → are_blocked d.user_id receiver db ≡ false
    → last_sender d.match_id db ≡ some d.user_id
    → request (send_between e d s t) db ≡ (err (api_error 409 Code.postcard_reply_not_received), db)
unfolding send_between
send_between_refused e d s t receiver db h1 h2 h3 h4 = rw (h1, h2, h3, h4) (ground arith)

pub send_in_ok :
    (e : Env) (d : Draft) (rows : List Seat) (db : Db) (row : PostcardRow)
    → (send_in e d rows (start db)).0 ≡ ok row
    → (s : Seat) × (t : Seat) × (rows ≡ s ∷ t ∷ [])
      × IsSent e d s t db (send_in e d rows (start db)).1.committed
unfolding send_in
send_in_ok e d [] db row h = absurd (ground arith)
send_in_ok e d (s ∷ []) db row h = absurd (ground arith)
send_in_ok e d (s ∷ t ∷ []) db row h = (s, t, refl, send_between_ok e d s t db row h)
send_in_ok e d (s ∷ t ∷ u ∷ rest) db row h = absurd (ground arith)

seats-write :
    (e : Env) (d : Draft) (receiver match_id : Uuid) (db : Db)
    → seats match_id (write_postcard e d receiver db) ≡ seats match_id db
unfolding seats
seats-write e d receiver match_id db = refl

send_after :
    (e e' : Env) (d d' : Draft) (s t : Seat) (receiver : Uuid) (db : Db)
    → d'.user_id ≡ d.user_id
    → d'.match_id ≡ d.match_id
    → SentBefore d.match_id e.db_now db
    → seats d.match_id db ≡ s ∷ t ∷ []
    → other_seat d.user_id s t ≡ some receiver
    → (s.user_id == d.user_id || t.user_id == d.user_id) ≡ true
    → are_blocked d.user_id receiver db ≡ false
    → let db' = write_postcard e d receiver db in
      request (send_new e' d') db' ≡ (err (api_error 409 Code.postcard_reply_not_received), db')
unfolding send_new send_in
send_after e e' d d' s t receiver db user match before rows h1 h2 h3 =
    ap (λ found. request (send_in e' d' found) (write_postcard e d receiver db))
      (seats-write e d receiver d'.match_id db ∙ ap (λ m. seats m db) match ∙ rows)
    ∙ send_between_refused e' d' s t receiver (write_postcard e d receiver db)
        (subst (λ u. other_seat u s t ≡ some receiver) (sym user) h1)
        (subst (λ u. (s.user_id == u || t.user_id == u) ≡ true) (sym user) h2)
        (subst (λ u. are_blocked u receiver db ≡ false) (sym user) h3)
        (ap (λ m. last_sender m (write_postcard e d receiver db)) match
          ∙ last_sender-write e d receiver db before
          ∙ ap (λ u. some u) (sym user))

-- Directly after a postcard that is sent later than all the match's others by the database's
-- clock, another postcard of its sender in that match, with any content, at any time, is refused
-- as not yet replied to, and nothing is written.
pub send_new_again :
    (e e' : Env) (d d' : Draft) (db : Db) (row : PostcardRow)
    → d'.user_id ≡ d.user_id
    → d'.match_id ≡ d.match_id
    → SentBefore d.match_id e.db_now db
    → (request (send_new e d) db).0 ≡ ok row
    → let db' = (request (send_new e d) db).1 in
      request (send_new e' d') db' ≡ (err (api_error 409 Code.postcard_reply_not_received), db')
unfolding send_new
send_new_again e e' d d' db row user match before h =
    let (s, t, rows, checked) = send_in_ok e d (seats d.match_id db) db row h in
    let (receiver, h1, h2, h3, written) = checked in
    subst
      (λ db'.
        request (send_new e' d') db' ≡ (err (api_error 409 Code.postcard_reply_not_received), db'))
      (sym written) (send_after e e' d d' s t receiver db user match before rows h1 h2 h3)
