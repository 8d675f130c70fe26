-- ===== src/Safety/Reports.antt =====
-- Reports that are made twice.
use dalm_backend.Models.{
  Photo, Report, embedding_status_eq, notification_type_eq, photo_status_eq, report_target_eq,
  term_type_eq, user_status_eq, validation_status_eq,
}
use dalm_backend.Prelude.{
  Bool, Rows-cases, [], any, arith, false, is_none, nat_eq, option_eq, select, string_eq, true,
  ◌&&◌, ◌++◌, ◌==◌, ◌∷◌, ◌≡◌,
}
use dalm_backend.Safety.{
  ReportRequest, add_report, check_target, create_report, is_member, new_report,
}
use dalm_backend.Store.{
  Db, Env, Error, err, ok, request, satisfies_constraints, start, unique, unique-clash,
}

-- A report of the same reporter on the same target.
abbrev pub is_repeated : ReportRequest → Report → Bool
is_repeated b r =
    r.reporter_id == b.reporter_id && r.target_type == b.target_type && r.target_id == b.target_id

repeated-satisfies_constraints :
    (e : Env) (b : ReportRequest) (db : Db)
    → any (is_repeated b) db.reports ≡ true
    → satisfies_constraints (add_report (new_report e b) db) ≡ false
unfolding satisfies_constraints
repeated-satisfies_constraints e b db h = all_false (unique-clash _ db.reports (new_report e b) h)
  where
    all_false :
        unique
            (λ r s.
              r.reporter_id == s.reporter_id
              && r.target_type == s.target_type
              && r.target_id == s.target_id)
            (db.reports ++ new_report e b ∷ [])
          ≡ false
        → satisfies_constraints (add_report (new_report e b) db) ≡ false
    all_false k = ground arith

check_target_same :
    (b : ReportRequest) (db : Db)
    → (check_target b (start db)).0 ≡ ok tt
    → check_target b (start db) ≡ (ok tt, start db)
unfolding check_target
check_target_same b db h = ground (
  arith,
  Rows-cases (select (is_member b.target_id) db.users),
  Rows-cases (select (λ (p : Photo). p.id == b.target_id && is_none p.deleted_at) db.photos),
)

-- A second report on a target that can be reported, by the same reporter, ends with SQLAlchemy's
-- `IntegrityError` and writes nothing: the row is flushed before the code that answers
-- `REPORT_ALREADY_EXISTS` is reached.
pub create_report_again :
    (e : Env) (b : ReportRequest) (db : Db)
    → any (is_repeated b) db.reports ≡ true
    → (check_target b (start db)).0 ≡ ok tt
    → request (create_report e b) db ≡ (err Error.integrity_error, db)
unfolding create_report
create_report_again e b db h k =
    ground (arith, check_target_same b db k, repeated-satisfies_constraints e b db h)
