-- ===== src/Lib.antt =====
-- FeedFlow: RSS feeds are polled, new posts are saved with an outbox event, and the users who
-- follow a feed are notified by Telegram or e-mail. This library models the feed side of the
-- repository, from the scrape of a feed and the HTTP API to the outbox, and its notification
-- pipeline, from the request event in Kafka to the message that leaves.
--
-- How the parts interact. The RSS worker (internal/worker) scrapes feeds and saves their posts; the
-- storage (internal/database/storage) writes, in the statement that saves a post, one request event
-- for each follower to an outbox. The API (internal/handler) serves users, feeds, follows and posts
-- behind the tokens of internal/auth. A relay (internal/notification/relay) reads an outbox table and
-- publishes each row to Kafka. The consumer (internal/notification/pipeline/consumer.go) decodes
-- records by internal/notification/contract: a request goes into the inbox and fans out into one
-- delivery for each enabled channel of the user, a retry makes a waiting delivery due again, and
-- what cannot be read becomes a dead letter. Workers (internal/notification/pipeline/worker.go)
-- claim due deliveries under a token and a lease, send them by the sender of their channel, and
-- settle them as sent or as failed; a failure that internal/notification/retry lets try again
-- writes a retry event to a second outbox, which a relay publishes, and so on round the loop.
-- All state is in the PostgreSQL tables of internal/notification/postgres.
--
-- Which file models what:
--   Base: tests and lists over native numbers, integers, text; what every file shares.
--   Contract: internal/notification/contract. Requested, Retry, DecodeRequested, DecodeRetry.
--   Errors: the error values of internal/notification/telegram and internal/notification/email
--     that are classified; a Go error chain is the list of its layers.
--   Retry: internal/notification/retry. NewPolicy, NextDelay, IsRetryable, SuggestedDelay.
--   Store: internal/notification/postgres. The tables are lists of rows, a statement is a function
--     on them, exec runs it under the driver's next fault, transaction rolls back. Inbox is
--     AcceptRequest and ResumeRetry (Resumption says what the latter leaves), Claim is Claim,
--     Outcomes is MarkSent and MarkFailed, Recovery is RecoverExpired, Channels the channel
--     operations. Triples are the pre- and postconditions of calls, Keeps and Tokens prove them,
--     History runs any sequence of calls.
--   Relay: internal/notification/relay. PublishOne.
--   Pipeline: internal/notification/sender and internal/notification/pipeline. NewRegistry, Get,
--     Worker.Process and a round of Worker.Run, Consumer.Process and the record loop of Run.
--   Http: internal/httpapi/response.go. DecodeJSON and the replies.
--   ChannelApi: internal/notification/httpapi. The four handlers of a user's channels.
--   Telegram: internal/notification/telegram. formatMessage and Send, over any HTTP client.
--   Email: internal/notification/email. The checks of the configuration, the building of a message
--     and the SMTP dialogue, over any server.
--   LegacyWorker: internal/notification/worker. The checks of its configuration and the decision
--     that ends a task.
--   Tables, Expansion, Deliveries, Batches, Lifecycle, Kept and Runs below LegacyWorker: its
--     repository (internal/notification/postgres/deliveries.go and outbox.go), its batches and its
--     loop.
--   Feeds: internal/database/storage. Accounts is SaveUser, GetUserByApiKey, AddFeed and FollowFeed,
--     Reading the queries and MarkFeedFetched, Posts is SavePost; Calls and Saved say what they
--     leave, Announced follows an event to the consumer, Served on to the deliveries, Order is the
--     order of the pages.
--   Scraper: internal/worker. scrapeFeed and parsePublishedAt.
--   Auth: internal/auth. NewIssuer, NewVerifier, Issue, Verify, and in Middleware
--     AuthorizationCredential and Middleware.
--   FeedApi: internal/handler. GetAllFeeds, in Writes PostUser, PostFeed, PostFollowFeed and
--     PostToken, in Followed GetPosts, in Router InitRouter; Paging is a client of GetAllFeeds.
--   Scenarios: concrete states and runs.
--
-- Bounds and fuel. Loops run over lists, or over a count of doublings. Fuel has only the loop of
-- the relay between two waits, where more rounds than due rows are enough, and the client that
-- pages through the feeds, where more pages than feeds are. A duration is a number of nanoseconds;
-- the doubling of a delay wraps at 64 bits as Go's int64, and a theorem shows that it does not
-- reach the wrap. Instants and UUIDs are numbers, 0 for the nil UUID and the zero time.
--
-- Parameters. Codec holds the encodings (JSON, UUIDs, URLs), Float64 the operations of float64,
-- a Sender is any function of a message, publish says whether Kafka took a record, gen_uuid is
-- gen_random_uuid() of the database, a JwtLibrary golang-jwt, a FeedParser encoding/xml and
-- time.Parse. A Session holds what the outside decides for a call of Store: both clocks, the rows
-- that others hold locked, which calls of the driver fail, and which commits that fail were carried
-- out. Outside and Moment do so for Feeds and for the repository of LegacyWorker, and say of every
-- call that reports a fault whether its statement was carried out. A float64 may be a NaN.
--
-- Not modelled: the gateway, the configuration, the Redis adapter, the loading of keys, the loop of
-- the RSS worker and the shutdown of the API; tickers, logging and process wiring. Two statements of
-- concurrent transactions do not interleave inside one call: a call meets the tables as a whole,
-- with the rows that others hold marked as locked. A single statement of Store that runs outside a
-- transaction and reports a fault has not been carried out, and neither has a commit of the relay
-- that does.
pub mod Base
pub mod Contract
pub mod Feeds
pub mod Errors
pub mod Retry
pub mod Store
pub mod Relay
pub mod Pipeline
pub mod Http
pub mod ChannelApi
pub mod Telegram
pub mod Email
pub mod LegacyWorker
pub mod Auth
pub mod Scraper
pub mod FeedApi
mod Scenarios
