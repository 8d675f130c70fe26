-- ===== src/Matching/Outcome.antt =====
-- What a match that is made has been checked for, and what one that is refused leaves.
use dalm_backend.Matching.{
  are_blocked, finalize, finalize_match, finalize_pair, finalize_rows, is_over, write_match,
}
use dalm_backend.Models.{
  DateTime, Photo, PhotoStatus, Uuid, embedding_status_eq, notification_type_eq, photo_status_eq,
  report_target_eq, term_type_eq, user_status_eq, validation_status_eq,
}
use dalm_backend.Prelude.{
  All, All-map, All-order_by, All-select, Bool, Bool-cases, List, String, [], arith, false, inl,
  inr, is_empty, leb, nat_eq, option_eq, order_by, order_by-All, refl, select, select-passes,
  string_eq, strip, subst, true, ◌==◌, ◌||◌, ◌∷◌, ◌≡◌, ◌≢◌,
}
use dalm_backend.Store.{Db, Env, Error, IsAtomic, err, ok, request, start}

abbrev is_one_of : Uuid → Uuid → Photo → Bool
is_one_of a b p = p.id == a || p.id == b

abbrev locked_pair : Uuid → Uuid → List Photo → List Photo
locked_pair a b ps = order_by (λ p q. leb p.id q.id) (select (is_one_of a b) ps)

-- A photo that may be matched at a time.
abbrev pub IsFree : DateTime → Photo → Type 0
IsFree now p = (p.status ≡ PhotoStatus.searching) × (is_over now p ≡ false)

-- What `finalize_pair` has found of its two rows, and what it has written.
abbrev IsMade : Env → String → DateTime → Photo → Photo → Db → Db → Type 0
IsMade e text now p q db db' =
    IsFree now p
    × IsFree now q
    × (p.user_id ≢ q.user_id)
    × (are_blocked p.user_id q.user_id db ≡ false)
    × (db' ≡ write_match e text p q db)

finalize_pair_ok :
    (e : Env) (text : String) (now : DateTime) (p q : Photo) (db : Db) (id : Uuid)
    → (finalize_pair e text now p q (start db)).0 ≡ ok id
    → (id ≡ e.uuid4 0)
      × IsMade e text now p q db (finalize_pair e text now p q (start db)).1.committed
unfolding finalize_pair
finalize_pair_ok e text now p q db id h = ground arith

finalize_pair_err :
    (e : Env) (text : String) (now : DateTime) (p q : Photo) (db : Db) (x : Error)
    → (finalize_pair e text now p q (start db)).0 ≡ err x
    → (finalize_pair e text now p q (start db)).1.committed ≡ db
unfolding finalize_pair
finalize_pair_err e text now p q db x h = ground arith

finalize_rows_err :
    (e : Env) (text : String) (now : DateTime) (db : Db) (rows : List Photo) (x : Error)
    → (finalize_rows e text now rows (start db)).0 ≡ err x
    → (finalize_rows e text now rows (start db)).1.committed ≡ db
unfolding finalize_rows
finalize_rows_err e text now db [] x h = refl
finalize_rows_err e text now db (p ∷ []) x h = refl
finalize_rows_err e text now db (p ∷ q ∷ []) x h = finalize_pair_err e text now p q db x h
finalize_rows_err e text now db (p ∷ q ∷ r ∷ rs) x h = refl

finalize-IsAtomic :
    (e : Env) (a b : Uuid) (text : String) (now : DateTime) → IsAtomic (finalize e a b text now)
unfolding finalize
finalize-IsAtomic e a b text now db x h =
    ground (arith, finalize_rows_err e text now db (locked_pair a b db.photos))

-- A match that is refused, or fails otherwise, leaves the database as it was.
pub finalize_match-IsAtomic :
    (e : Env) (a b : Uuid) (text : String) (now : DateTime)
    → IsAtomic (finalize_match e a b text now)
unfolding finalize_match
finalize_match-IsAtomic e a b text now db x h = ground (
  arith,
  finalize-IsAtomic e a b (strip text) now db x,
  finalize-IsAtomic e b a (strip text) now db x,
)

-- The two rows that are matched: they are all the photos under the two identifiers.
abbrev IsPair : Env → Uuid → Uuid → String → DateTime → Db → Db → Photo → Photo → Type 0
IsPair e a b text now db db' p q =
    (is_one_of a b p ≡ true)
    × (is_one_of a b q ≡ true)
    × All (λ x. is_one_of a b x ≡ true → IsFree now x) db.photos
    × IsMade e text now p q db db'

IsPair-found :
    (e : Env) (a b : Uuid) (text : String) (now : DateTime) (db db' : Db) (p q : Photo)
    → locked_pair a b db.photos ≡ p ∷ q ∷ []
    → IsMade e text now p q db db'
    → IsPair e a b text now db db' p q
IsPair-found e a b text now db db' p q found made = (passes.0, passes.1.0, free, made)
  where
    passes : All (λ x. is_one_of a b x ≡ true) (p ∷ q ∷ [])
    passes = rw found at (
        order_by-All (λ x. is_one_of a b x ≡ true) (λ x y. leb x.id y.id)
          (select (is_one_of a b) db.photos) (select-passes (is_one_of a b) db.photos))

    both : All (IsFree now) (p ∷ q ∷ [])
    both = (made.0, (made.1, tt))

    free : All (λ x. is_one_of a b x ≡ true → IsFree now x) db.photos
    free = All-select (IsFree now) (is_one_of a b) db.photos (
        All-order_by (IsFree now) (λ x y. leb x.id y.id) (select (is_one_of a b) db.photos)
          (rw found both))

finalize_ok :
    (e : Env) (a b : Uuid) (text : String) (now : DateTime) (db : Db) (id : Uuid)
    (rows : List Photo)
    → locked_pair a b db.photos ≡ rows
    → (finalize_rows e text now rows (start db)).0 ≡ ok id
    → (id ≡ e.uuid4 0)
      × (p : Photo) × (q : Photo) × IsPair e a b text now db
          (finalize_rows e text now rows (start db)).1.committed
          p
          q
unfolding finalize_rows
finalize_ok e a b text now db id [] found h = absurd (ground arith)
finalize_ok e a b text now db id (p ∷ []) found h = absurd (ground arith)
finalize_ok e a b text now db id (p ∷ q ∷ []) found h =
    let r = finalize_pair_ok e text now p q db id h in
    (r.0, p, q, IsPair-found e a b text now db _ p q found r.1)
finalize_ok e a b text now db id (p ∷ q ∷ r ∷ rs) found h = absurd (ground arith)

finalize-rows :
    (e : Env) (a b : Uuid) (text : String) (now : DateTime) (db : Db) (id : Uuid)
    → (finalize e a b text now (start db)).0 ≡ ok id
    → ((finalize_rows e text now (locked_pair a b db.photos) (start db)).0 ≡ ok id)
      × ((finalize_rows e text now (locked_pair a b db.photos) (start db)).1.committed
          ≡ (finalize e a b text now (start db)).1.committed)
unfolding finalize
finalize-rows e a b text now db id h = ground arith

-- What a match that is made has been checked for.
abbrev pub IsMatch : Env → Uuid → Uuid → String → DateTime → Db → Db → Type 0
IsMatch e a b text now db db' = (p : Photo) × (q : Photo) × IsPair e a b text now db db' p q

finalize-IsMatch :
    (e : Env) (a b : Uuid) (text : String) (now : DateTime) (db : Db) (id : Uuid)
    → (finalize e a b text now (start db)).0 ≡ ok id
    → (id ≡ e.uuid4 0) × IsMatch e a b text now db (finalize e a b text now (start db)).1.committed
finalize-IsMatch e a b text now db id h =
    let r = finalize-rows e a b text now db id h in
    let m = finalize_ok e a b text now db id (locked_pair a b db.photos) refl r.0 in
    (m.0, subst (λ db'. IsMatch e a b text now db db') r.1 (m.1, m.2, m.3))

IsMatch-swap :
    (e : Env) (a b : Uuid) (text : String) (now : DateTime) (db db' : Db)
    → IsMatch e b a text now db db'
    → IsMatch e a b text now db db'
IsMatch-swap e a b text now db db' (p, q, h) =
    (p, q, (swap p h.0, swap q h.1, All-map db.photos (λ x k t. k (swap' x t)) h.2, h.3))
  where
    swap : (x : Photo) → is_one_of b a x ≡ true → is_one_of a b x ≡ true
    swap x t = ground arith

    swap' : (x : Photo) → is_one_of a b x ≡ true → is_one_of b a x ≡ true
    swap' x t = ground arith

-- A match that is made is of two rows `p` and `q` under the two given identifiers, and all
-- photos under these were searching, with their search period not over. The identifiers differ,
-- the explanation is not blank, the two photos have different owners of whom neither has blocked
-- the other, and what is written is exactly `write_match`, with the stripped explanation; the
-- answer is the first identifier drawn.
pub finalize_match_ok :
    (e : Env) (a b : Uuid) (text : String) (now : DateTime) (db : Db) (id : Uuid)
    → (request (finalize_match e a b text now) db).0 ≡ ok id
    → (a ≢ b)
      × (is_empty (strip text) ≡ false)
      × (id ≡ e.uuid4 0)
      × IsMatch e a b (strip text) now db (request (finalize_match e a b text now) db).1
unfolding finalize_match
finalize_match_ok e a b text now db id h = elim (Bool-cases (a == b)) [
  | inl same ↦ absurd (ground arith)
  | inr other ↦ elim (Bool-cases (is_empty (strip text))) [
    | inl blank ↦ absurd (ground arith)
    | inr some_text ↦ elim (Bool-cases (leb a b)) [
      | inl e1 ↦
          let m = finalize-IsMatch e a b (strip text) now db id (ground arith) in
          rw (other, some_text, e1) (distinct other, refl, m.0, m.1)
      | inr e1 ↦
          let m = finalize-IsMatch e b a (strip text) now db id (ground arith) in
          rw (other, some_text, e1)
            (distinct other, refl, m.0, IsMatch-swap e a b (strip text) now db _ m.1)
    ]
  ]
]
  where
    distinct : (a == b) ≡ false → a ≢ b
    distinct k = ground arith
