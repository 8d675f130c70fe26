-- ===== src/Pages.antt =====
-- app/repositories.py and app/main.py: lists that are read page by page, newest first. A list method
-- returns one row more than the size where more follow, and the handler makes the page of it.
pub mod Order
pub mod Walk
pub mod Keys
use mathlib.Core.Option
use dalm_backend.Models.{
  DateTime, Uuid, embedding_status_eq, notification_type_eq, photo_status_eq, report_target_eq,
  term_type_eq, user_status_eq, validation_status_eq,
}
use dalm_backend.Prelude.{
  Bool, List, Option, [], if◌then◌else◌, length, ltb, map, nat_eq, none, option_eq, some, string_eq,
  suc, take, true, zero, ℕ, ◌&&◌, ◌++◌, ◌==◌, ◌||◌, ◌∷◌,
}
use dalm_backend.Store.{Result, err, ok}

pub record Cursor : Type 0 where
  pub at : DateTime
  pub id : Uuid

-- The rows strictly behind the cursor in the order `(at, id)`, newest first.
abbrev pub behind : Option Cursor → DateTime → Uuid → Bool
behind none at id = true
behind (some c) at id = ltb at c.at || at == c.at && ltb id c.id

module _ {A : Type 0} where
  abbrev pub last? : List A → Option A
  last? [] = none
  last? (x ∷ []) = some x
  last? (x ∷ y ∷ xs) = last? (y ∷ xs)

  -- `len(rows) > size`.
  abbrev pub has_next : ℕ → List A → Bool
  has_next size rows = ltb size (length rows)

  -- `encode_cursor(page[-1]…) if has_next and page else None`, before the encoding.
  abbrev pub next_cursor : (A → Cursor) → ℕ → List A → Option Cursor
  next_cursor key size rows =
      if has_next size rows then Option.map key (last? (take size rows)) else none

-- The data of a response: the page, and the cursor of the next one, encoded.
pub record Page (A K : Type 0) : Type 0 where
  pub items : List A
  pub next : Option K
  pub more : Bool

module _ {A : Type 0} where
  abbrev pub prepend : List A → Result (List A) → Result (List A)
  prepend xs (err e) = err e
  prepend xs (ok rest) = ok (xs ++ rest)

module _ {A K : Type 0} where
  abbrev pub page_of : (Cursor → K) → (A → Cursor) → ℕ → List A → Page A K
  page_of encode key size rows = record {
    items = take size rows;
    next = Option.map encode (next_cursor key size rows);
    more = has_next size rows;
  }

  -- What a client does with a response, where it can go on reading from a cursor.
  abbrev pub walk_on : (Option K → Result (List A)) → Result (Page A K) → Result (List A)
  walk_on read (err e) = err e
  walk_on read (ok page) = elim page.next [
    | none ↦ ok page.items
    | some k ↦ prepend page.items (read (some k))
  ]

  -- A client that follows the cursors, for a number of requests at most.
  unfoldable pub walk : ℕ → (Option K → Result (Page A K)) → Option K → Result (List A)
  walk zero fetch cursor = ok []
  walk (suc fuel) fetch cursor = walk_on (walk fuel fetch) (fetch cursor)

module _ {A B : Type 0} where
  abbrev pub map_result : (A → B) → Result A → Result B
  map_result f (err e) = err e
  map_result f (ok a) = ok (f a)

  -- The items of a page, as a response shows them.
  abbrev pub map_page : {K : Type 0} → (A → B) → Page A K → Page B K
  map_page f p = record { items = map f p.items; next = p.next; more = p.more }
