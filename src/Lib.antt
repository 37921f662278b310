-- ===== src/Lib.antt =====
-- The credential broker of ccbroker. A daemon owns the OAuth credentials of several accounts,
-- refreshes them, serves their access tokens to clients, adopts freshly offered ones, and tracks
-- their health (internal/). A client on each machine offers what it finds there, writes what the
-- broker serves into the local targets, and switches between accounts (cmd/ccb).
--
-- The parts, each in the file of its name:
--   Creds       internal/creds/creds.go: the record of a credential and what is served of it.
--   Store       internal/store/store.go: the records in memory and as last written to disk; File is
--               the layout of the encrypted file.
--   Config      internal/config/config.go: LoadServer; AgentFile is LoadAgent, AgentJson the JSON of
--               its file, KeyFile LoadKey.
--   Anthropic   internal/anthropic/*.go: from the HTTP answer of the upstream OAuth API to a grant, a
--               profile, a quota snapshot or a failure.
--   Json        the values that encoding/json gives, and the typed reads that the source makes.
--   Server      internal/server/server.go, split by what it does:
--     State     the struct Server as the record Broker; actions are functions on it.
--     Gen       nextGen, commit, seedGen, waitForGen.
--     Ring      retireHash and containsStr.
--     Refresh   ensureFresh, doRefresh, applyRefresh, refreshDue.
--     Health    poll, pollOne, confirmAuthFailure, reclaim, transitionHealth, probeCred.
--     Route     routeByAccount, assertUnique.
--     Migrate   New and Migrate.
--     Access    authClient, scopeAllows, rateLimitOffer, adminAuth.
--     GetCred   handleGetCred.
--     Offer     handleOffer, parseOAuth, oauthApparentAge.
--     Admin     handleAdmin and what it calls, handleUsage.
--     Calls     the requests and ticks that reach the broker, as a sequence of steps.
--   Ccb         cmd/ccb/main.go, the client:
--     State     the files of a machine, and what surrounds the client.
--     Gate      overwriteDecision, transientReason.
--     Local     readLocalRaw, parseOAuthBytes, mergeOAuthDoc, writeIfUnchanged, writeTarget.
--     Broker    getCredEnvelope, offerCred, fetchUsageRows, longPoll.
--     Transport  httpClient and httpClientTimeout.
--     Rotate    autoSelect, resolveCred, readActive, writeActive.
--     Identity  claudeJSONForTarget, syncIdentity.
--     Sync      syncTarget, syncAll, syncCycle, writeStatusCache.
--     Watch     the loop of runWatch, one iteration after another; Guard is the lock that keeps a second
--               daemon out (acquireWatchLock in cmd/ccb/daemon_unix.go).
--     Log       what may stand in the log of a client's reads, calls and writes.
--     Statusline  the order and the segments of the status line; Lines and Printed are what
--               renderStatus, printStatusline and printStatuslineAll print.
--     Script    the marker block in a statusline script.
--     Settings  loadSettings, statuslineOn, statuslineOff; Install is installStatusline.
--     Policy    runPolicy.
--     Setup     cmd/ccb/setup.go: runSetup, offerScheduler and the units.
--     Main      the arguments, the choice of a command and its exit status.
--   Wire        the JSON that the broker answers and the client reads.
--   Daemon      cmd/ccbrokerd/main.go: genkey, hashtoken and serve up to its listeners, with store.Open.
-- The modules below these state what holds of them. Base/Triples has one rule for each way to build
-- an action, for what holds behind it; Server/Keeps carries a property of the shared state through
-- every handler.
--
-- Concurrency: one handler at a time is run, and `Env` says what the other goroutines do to the state
-- while it waits for a mutex, a timer or an upstream answer (`others`, or `others_beside` while it
-- holds the mutex of one credential). Between two such points a handler runs undisturbed, which is
-- coarser than Go's scheduler. `Env` also answers for the clock, which may step back, the disk, whose
-- writes may fail, the upstream API and the hash. A theorem that asks something of the other
-- goroutines has it as a hypothesis (`Rely`, `Quiet`). On the client's side `World` does the same, with the other programs of the machine acting at every question; they may so change a target
-- between the last read of it and the write, which no check of the source can see.
--
-- Numbers are unbounded: int64 wrap-around of times and generations is not modelled, and a float64 is
-- the decimal that it is read from. Every loop of the source is over a list or has two rounds, but
-- for the watch daemon's, which is run for any number of iterations, so no fuel is needed. The
-- order of a map's iteration is the order of an association list.
--
-- Not modelled: HTTP transport and the audit log, the tickers of the two loops (each tick is a call),
-- prompts and what cmd/ccb prints but for the status and the status line, signals, and the shell
-- scripts.
mod Base
pub mod Json
pub mod Creds
pub mod Anthropic
pub mod Config
pub mod Store
pub mod Server
pub mod Ccb
pub mod Wire
pub mod Daemon
