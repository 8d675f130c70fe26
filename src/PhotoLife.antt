-- ===== src/PhotoLife.antt =====
-- How the table of photos may change in one request: rows advance along the life of a photo, and
-- new rows come at the end.
pub mod Validations
pub mod Home
pub mod Matches
pub mod History
use dalm_backend.Models.{
  DateTime, Photo, PhotoStatus, Uuid, days, embedding_status_eq, notification_type_eq,
  photo_status_eq, report_target_eq, term_type_eq, user_status_eq, validation_status_eq,
}
use dalm_backend.Prelude.{
  All, All-map, All-select, Bool, Extends, Extends-All, Extends-append, Extends-refl, Extends-trans,
  Extends-update_where, List, Option, [], arith, nat_eq, not, option_eq, refl, select,
  select-passes, some, string_eq, true, update_where, ◌&&◌, ◌++◌, ◌+◌, ◌==◌, ◌||◌, ◌∙◌, ◌∷◌, ◌≡◌,
}

-- The statuses that a photo of a given status can still come to.
abbrev pub can_become : PhotoStatus → PhotoStatus → Bool
can_become PhotoStatus.validating t = true
can_become PhotoStatus.searching t =
    not (t == PhotoStatus.validating) && not (t == PhotoStatus.rejected)
can_become s t = s == t || t == PhotoStatus.deleted && not (s == PhotoStatus.matched)

-- A photo that searches, has matched or has expired has a window of seven days from its
-- registration.
abbrev pub WindowOf : PhotoStatus → Option DateTime → DateTime → Type 0
WindowOf PhotoStatus.validating w at = Unit
WindowOf PhotoStatus.rejected w at = Unit
WindowOf PhotoStatus.deleted w at = Unit
WindowOf PhotoStatus.searching w at = w ≡ some (at + days 7)
WindowOf PhotoStatus.matched w at = w ≡ some (at + days 7)
WindowOf PhotoStatus.expired w at = w ≡ some (at + days 7)

abbrev pub HasWindow : Photo → Type 0
HasWindow p = WindowOf p.status p.search_expires_at p.registered_at

-- One photo before and after: what identifies it stays, and its status moves forward.
pub record Advances (p q : Photo) : Type 0 where
  pub same_id : q.id ≡ p.id
  pub same_owner : q.user_id ≡ p.user_id
  pub same_day : q.registered_date ≡ p.registered_date
  pub same_time : q.registered_at ≡ p.registered_at
  pub forward : can_become p.status q.status ≡ true
  pub window : HasWindow p → HasWindow q

abbrev pub Grows : List Photo → List Photo → Type 0
Grows = Extends Advances HasWindow

can_become_self : (s : PhotoStatus) → can_become s s ≡ true
can_become_self PhotoStatus.validating = refl
can_become_self _ = refl

can_become_trans :
    (s t u : PhotoStatus) → can_become s t ≡ true → can_become t u ≡ true → can_become s u ≡ true
can_become_trans PhotoStatus.validating t u h k = refl
can_become_trans PhotoStatus.searching t u h k = ground arith
can_become_trans _ t u h k = ground arith

pub Advances-refl : (p : Photo) → Advances p p
Advances-refl p = record {
  same_id = refl;
  same_owner = refl;
  same_day = refl;
  same_time = refl;
  forward = can_become_self p.status;
  window = λ w. w;
}

pub Advances-trans : (p q r : Photo) → Advances p q → Advances q r → Advances p r
Advances-trans p q r a b = record {
  same_id = b.same_id ∙ a.same_id;
  same_owner = b.same_owner ∙ a.same_owner;
  same_day = b.same_day ∙ a.same_day;
  same_time = b.same_time ∙ a.same_time;
  forward = can_become_trans p.status q.status r.status a.forward b.forward;
  window = λ w. b.window (a.window w);
}

pub Grows-refl : (ps : List Photo) → Grows ps ps
Grows-refl = Extends-refl Advances HasWindow Advances-refl

pub Grows-trans : (ps qs rs : List Photo) → Grows ps qs → Grows qs rs → Grows ps rs
Grows-trans ps qs rs = Extends-trans Advances HasWindow ps qs rs Advances-trans (λ p q a. a.window)

-- An UPDATE whose rows all advance.
pub update_where-Grows :
    (t : Photo → Bool) (f : Photo → Photo) (ps : List Photo)
    → All (λ p. t p ≡ true → Advances p (f p)) ps
    → Grows ps (update_where t f ps)
update_where-Grows t f ps = Extends-update_where Advances HasWindow t f ps Advances-refl

pub append-Grows : (ps qs : List Photo) → All HasWindow qs → Grows ps (ps ++ qs)
append-Grows ps qs = Extends-append Advances HasWindow ps qs Advances-refl

-- All photos of one identifier advance if those do that a query for it has found.
pub update_selected-Grows :
    (t u : Photo → Bool) (f : Photo → Photo) (ps : List Photo)
    → ((p : Photo) → u p ≡ true → t p ≡ true)
    → All (λ p. Advances p (f p)) (select t ps)
    → Grows ps (update_where u f ps)
update_selected-Grows t u f ps k h =
    update_where-Grows u f ps
      (All-map ps (λ p g e. g (k p e)) (All-select (λ p. Advances p (f p)) t ps h))

-- The single row that a query for an identifier has found is the one that an ORM change writes.
pub update_found-Grows :
    (id : Uuid) (photo : Photo) (f : Photo → Photo) (ps : List Photo)
    → select (λ p. p.id == id) ps ≡ photo ∷ []
    → Advances photo (f photo)
    → Grows ps (update_where (λ p. p.id == photo.id) f ps)
update_found-Grows id photo f ps e a =
    let passes : All (λ p. (p.id == id) ≡ true) (photo ∷ []) =
      rw e at (select-passes (λ (p : Photo). p.id == id) ps) in
    update_selected-Grows (λ p. p.id == id) (λ p. p.id == photo.id) f ps
      (λ p h. ground (arith, passes.0)) (rw e (a, tt))

-- A property of the table that every photo has, `HasWindow`, is kept.
pub Grows-HasWindow : (ps qs : List Photo) → All HasWindow ps → Grows ps qs → All HasWindow qs
Grows-HasWindow ps qs = Extends-All Advances HasWindow ps qs (λ p q a. a.window)
