-- ===== src/Lib.antt =====
-- The backend of DALM, a service on which users register a photo a day, have it validated by a model,
-- are matched with a user whose photo resembles theirs, and then exchange postcards.
--
-- The parts and their files:
--   Models, Store: the tables (app/models.py), the constraints that a commit can violate
--     (alembic/versions), and SQLAlchemy's sessions (app/database.py) with the errors of app/errors.py.
--     A table is the list of its rows, a query a selection with its ORDER BY, an UPDATE a map over the
--     rows that pass its WHERE. An `Action` is a method that works on a session: `modify` changes its
--     copy of the database, `commit` checks the constraints and publishes the copy, `rollback` drops
--     it. `request` runs one method on a new session.
--   PhotoValidations: `PhotoValidationRepository` of app/repositories.py, the queue that validation
--     workers claim, complete and fail (Claims, Results, Failures).
--   Photos: `HomeRepository`, from upload to deletion.
--   Expiration, Matching: app/expiration.py and app/matching.py, the ends of a search.
--   PhotoLife: the life of a photo under all of these, over whole histories.
--   EmbeddingJobs, Floats, Ranking, Candidates: app/embedding_jobs.py, app/match_ranking.py and
--     app/photo_embeddings.py, from the embedding of a photo to the attempt to match it.
--   Postcards: `PostcardRepository`.
--   Notifications, Inbox: app/notifications.py, `NotificationRepository` and
--     `NotificationPreferenceRepository`.
--   Users, Safety: `UserRepository`, `ReportRepository` and `SafetyRepository`.
--   TokenStore, RedisTokens: app/token_store.py, the store in memory and the one in Redis.
--   Tokens: app/tokens.py.
--   Moments, MatchViews: the rest of `HomeRepository`, the list of moments with its counts, and a match
--     as its two users see, hide and view it.
--   Pages: lists that are read page by page, with the cursor that cuts them.
--   Http: the handlers of app/main.py with the data of app/schemas.py, by what they serve: Access (keys,
--     tokens and settings), Cursors, Accounts, Home, Gallery (photos), Uploads, Matched (moments and
--     matches), Lists (reports, blocks, notifications, postcards, devices), Jobs (the internal ones).
--   PhotoUpload, PhotoStorage: app/photo_upload.py and app/photo_storage.py.
--   Login: app/auth.py. Workers: app/ai_validation_worker.py and app/ai_embedding_worker.py.
--   Prelude: Boolean tests, rows of tables and their lemmas. Tests: runs at concrete rows.
--
-- How the parts meet: an upload makes a photo that validates and a job; a result makes it search and
-- queues an embedding job, or rejects it; the embedding job ends in the ranking of candidates and in the
-- attempts to match with them; a match lets its two users send postcards. Each step writes
-- notifications. All share the tables, and meet only there.
--
-- Numbers: identifiers, times (in microseconds) and days are natural numbers, which the code compares
-- and adds but never lets wrap around. The exponent of a retry delay is the attempt count less one; at
-- no attempt Python's power is one half, and so is the model's. Floats are an abstract type with its
-- operations as parameters (`FloatOps`), compared as in IEEE 754 (`IsOrdered`). No definition of the
-- program takes fuel: every loop runs over a list.
--
-- Parameters: the clock, the database's clock and the identifiers that `uuid4` draws (`Env`), the
-- signing library (`Jwt`), the float operations (`FloatOps`), the rows that other transactions hold
-- locked, which a claim skips, the formats of times, identifiers, UTF-8 and base64 (`Codec`, with
-- `CodecLaws`), Pillow and SHA-256 (`Pillow`), the clients of the object storages (with `S3Laws` and
-- `GcsLaws`), the answers of the identity providers, the model that a worker asks (`Provider`) and its
-- download, and the commands of Redis (`Redis`, with `RedisLaws`), whose keys do not run out of time.
-- `walk` takes the number of requests that a client makes at most; one more than there are rows is
-- enough.
--
-- Not modelled: foreign keys and column lengths; the texts of error messages, each of which goes with
-- its code; transactions that overlap, beyond the locks that a claim skips; that datetimes are aware;
-- routing and the declarative bounds of the request schemas, health and readiness; the calls of the
-- identity providers; the polling loops of the workers' scripts, configuration from the environment and
-- deployment.
pub mod Prelude
pub mod Models
pub mod Store
pub mod Pages
pub mod Notifications
pub mod PhotoValidations
pub mod Photos
pub mod Expiration
pub mod Matching
pub mod Postcards
pub mod Moments
pub mod MatchViews
pub mod TokenStore
pub mod RedisTokens
pub mod Tokens
pub mod EmbeddingJobs
pub mod Floats
pub mod Ranking
pub mod Candidates
pub mod Users
pub mod Safety
pub mod Inbox
pub mod Http
pub mod PhotoUpload
pub mod PhotoStorage
pub mod Login
pub mod Workers
pub mod PhotoLife
pub mod Tests
