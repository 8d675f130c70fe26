-- ===== src/Models/Statuses.antt =====
-- app/models.py and app/notifications.py: the enumerated columns, which the database's CHECK
-- constraints keep to these values, with their equality tests.
use dalm_backend.Prelude.{ℕ, ◌≡◌, ◌↔◌, Bool, true, nat_beq, Eq, arith}

pub data UserStatus : Type 0 where
  active restricted withdrawn : UserStatus

abbrev pub user_status_tag : UserStatus → ℕ
user_status_tag UserStatus.active = 0
user_status_tag UserStatus.restricted = 1
user_status_tag UserStatus.withdrawn = 2

abbrev pub user_status_beq : UserStatus → UserStatus → Bool
user_status_beq a b = nat_beq (user_status_tag a) (user_status_tag b)

pub user_status_beq_iff : (a b : UserStatus) → (user_status_beq a b ≡ true) ↔ (a ≡ b)
user_status_beq_iff a b = ground arith

instance abbrev pub user_status_eq : Eq UserStatus
user_status_eq = record { test = user_status_beq; test_iff = user_status_beq_iff }

pub data PhotoStatus : Type 0 where
  validating rejected searching matched expired deleted : PhotoStatus

abbrev pub photo_status_tag : PhotoStatus → ℕ
photo_status_tag PhotoStatus.validating = 0
photo_status_tag PhotoStatus.rejected = 1
photo_status_tag PhotoStatus.searching = 2
photo_status_tag PhotoStatus.matched = 3
photo_status_tag PhotoStatus.expired = 4
photo_status_tag PhotoStatus.deleted = 5

abbrev pub photo_status_beq : PhotoStatus → PhotoStatus → Bool
photo_status_beq a b = nat_beq (photo_status_tag a) (photo_status_tag b)

pub photo_status_beq_iff : (a b : PhotoStatus) → (photo_status_beq a b ≡ true) ↔ (a ≡ b)
photo_status_beq_iff a b = ground arith

instance abbrev pub photo_status_eq : Eq PhotoStatus
photo_status_eq = record { test = photo_status_beq; test_iff = photo_status_beq_iff }

pub data ValidationStatus : Type 0 where
  pending processing passed rejected failed : ValidationStatus

abbrev pub validation_status_tag : ValidationStatus → ℕ
validation_status_tag ValidationStatus.pending = 0
validation_status_tag ValidationStatus.processing = 1
validation_status_tag ValidationStatus.passed = 2
validation_status_tag ValidationStatus.rejected = 3
validation_status_tag ValidationStatus.failed = 4

abbrev pub validation_status_beq : ValidationStatus → ValidationStatus → Bool
validation_status_beq a b = nat_beq (validation_status_tag a) (validation_status_tag b)

pub validation_status_beq_iff :
    (a b : ValidationStatus) → (validation_status_beq a b ≡ true) ↔ (a ≡ b)
validation_status_beq_iff a b = ground arith

instance abbrev pub validation_status_eq : Eq ValidationStatus
validation_status_eq = record { test = validation_status_beq; test_iff = validation_status_beq_iff }

pub data EmbeddingStatus : Type 0 where
  pending processing completed failed : EmbeddingStatus

abbrev pub embedding_status_tag : EmbeddingStatus → ℕ
embedding_status_tag EmbeddingStatus.pending = 0
embedding_status_tag EmbeddingStatus.processing = 1
embedding_status_tag EmbeddingStatus.completed = 2
embedding_status_tag EmbeddingStatus.failed = 3

abbrev pub embedding_status_beq : EmbeddingStatus → EmbeddingStatus → Bool
embedding_status_beq a b = nat_beq (embedding_status_tag a) (embedding_status_tag b)

pub embedding_status_beq_iff : (a b : EmbeddingStatus) → (embedding_status_beq a b ≡ true) ↔ (a ≡ b)
embedding_status_beq_iff a b = ground arith

instance abbrev pub embedding_status_eq : Eq EmbeddingStatus
embedding_status_eq = record { test = embedding_status_beq; test_iff = embedding_status_beq_iff }

pub data NotificationType : Type 0 where
  validation_passed photo_rejected matched postcard_received search_expired system :
      NotificationType

abbrev pub notification_type_tag : NotificationType → ℕ
notification_type_tag NotificationType.validation_passed = 0
notification_type_tag NotificationType.photo_rejected = 1
notification_type_tag NotificationType.matched = 2
notification_type_tag NotificationType.postcard_received = 3
notification_type_tag NotificationType.search_expired = 4
notification_type_tag NotificationType.system = 5

abbrev pub notification_type_beq : NotificationType → NotificationType → Bool
notification_type_beq a b = nat_beq (notification_type_tag a) (notification_type_tag b)

pub notification_type_beq_iff :
    (a b : NotificationType) → (notification_type_beq a b ≡ true) ↔ (a ≡ b)
notification_type_beq_iff a b = ground arith

instance abbrev pub notification_type_eq : Eq NotificationType
notification_type_eq = record { test = notification_type_beq; test_iff = notification_type_beq_iff }

pub data TermType : Type 0 where
  service privacy age_14 marketing : TermType

abbrev pub term_type_tag : TermType → ℕ
term_type_tag TermType.service = 0
term_type_tag TermType.privacy = 1
term_type_tag TermType.age_14 = 2
term_type_tag TermType.marketing = 3

abbrev pub term_type_beq : TermType → TermType → Bool
term_type_beq a b = nat_beq (term_type_tag a) (term_type_tag b)

pub term_type_beq_iff : (a b : TermType) → (term_type_beq a b ≡ true) ↔ (a ≡ b)
term_type_beq_iff a b = ground arith

instance abbrev pub term_type_eq : Eq TermType
term_type_eq = record { test = term_type_beq; test_iff = term_type_beq_iff }

pub data ReportTarget : Type 0 where
  user photo postcard : ReportTarget

abbrev pub report_target_tag : ReportTarget → ℕ
report_target_tag ReportTarget.user = 0
report_target_tag ReportTarget.photo = 1
report_target_tag ReportTarget.postcard = 2

abbrev pub report_target_beq : ReportTarget → ReportTarget → Bool
report_target_beq a b = nat_beq (report_target_tag a) (report_target_tag b)

pub report_target_beq_iff : (a b : ReportTarget) → (report_target_beq a b ≡ true) ↔ (a ≡ b)
report_target_beq_iff a b = ground arith

instance abbrev pub report_target_eq : Eq ReportTarget
report_target_eq = record { test = report_target_beq; test_iff = report_target_beq_iff }
