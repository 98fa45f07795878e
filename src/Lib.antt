-- ===== src/Lib.antt =====
-- NZBreX checks the articles of an NZB at several Usenet providers, downloads those that are missing
-- somewhere and uploads them there. A session's divider goes over the articles and hands them to the check,
-- download and upload routines of each provider group; these take connections from the provider's pool, and
-- a memory slot for each article that they hold; the web pages queue jobs, which one runner starts as sessions.
-- Each file below names the code that it models; paths are from the repository's root.
--
-- Prelude (and Prelude/*): Boolean tests, lists measured by native numbers, equality as an interface,
-- uint64 words and Go maps as association lists.
-- Counter: Counter_uint64.go, the named counters. One function per method (`incr` is Incr, `get_reset` is
--   GetReset, ...); `perform` is any call. `none` is the panic of a write to the nil map of a killed counter.
--   Counter/Refinement states what each call does to the values by key, Counter/Limits wrap-around and maxima.
-- MemLimit: MemLimit.go, the limiter of articles in memory. MemLockWait is `begin_wait`, `try_slot`,
--   `take_slot`, `give_up` and `end_wait`, memReturn is `release` and `send_back`: each critical section and
--   channel operation is one step, and `run` is any interleaving of the callers.
-- Yenc: the line decoders of yenc/yenc.go (DecodeLine, DecodeLineNew, DecodeLineSIMD1, DecodeLineSIMD2), in
--   place where the code decodes in place. The fuel of the block decoders is one more than the line's length,
--   which is enough since each round reads a byte.
-- Rapid: rapidyenc/uuencode.go and rapidyenc/decoder.go. Rapid.antt has UUEncode's lines, UUdecode and
--   detectFormat, Rapid/Fields extractInt and extractCRC, Rapid/Decoder processYenc and Transform, turn by turn,
--   Rapid/Trailers and Rapid/Written what the turns keep, and Rapid/Verdicts the calls of Transform one after another.
--   The decoder of the yEnc data (the C library, or go-yenc-simd) and the CRC-32 are arguments. One turn for
--   each byte of the source and five more are enough fuel for Transform, whatever that decoder reports.
-- WebJobs: webjobs.go, the job queue. WebJobs/State has the queue and its jobs; in WebJobs/Calls `add_job`,
--   `start_job`, `stop_job`, `delete_job` and so on are the methods of the same names; in WebJobs/Machine the runner
--   goroutine is a state (`Runner`) with the steps `wake_up`, `pick`, `begin_run` and `end_run` (runJob before and
--   after the session runs), and `run_moves` is any sequence of calls and steps. What a
--   session has published (Session.go, sessionProgress) when it is read is a function argument.
-- Items: the article (Config.go, segmentChanItem) and what Workers.go and Routines.go do to its flags and
--   maps. Items.antt has the tests of the divider and FlagError, Items/Replies the marks of GoCheckRoutine,
--   GoDownsRoutine and GoReupsRoutine for a server's reply and the retries of checkItem, Items/Pushes
--   pushDL and pushUP, Items/Retire the return of the memory slot (retireItem, retireAfterDownload,
--   afterCacheWrite) as steps of those who race for it. Go's random order of a map is the order of the list that the loops are given.
-- Divider: GoWorkDivider of Workers.go: `count_item` is a turn of its loop over the articles up to the pushes,
--   `end_round` the close cases with closeWait. Items has the tests that it makes and the pushes.
-- Conns: ConnPool.go, the pool of connections of a provider: NewConn (entered and left in steps of their own,
--   since GetConn calls it and it dials without the lock), GetConn's loop turn by turn, ParkConn and CloseConn; `run_moves` is any interleaving of the routines.
-- Nntp: NetConn.go. Nntp.antt has the send loop of CMD_IHAVE and CMD_POST and the bytes on the wire, with
--   net/textproto's ReadLine; as many turns as there are bytes are enough fuel to split them into lines.
--   Nntp/Reader is readDotLines, Nntp/Commands CMD_STAT, CMD, CMD_IHAVE, CMD_POST and checkCapabilities.
--   The check of a yEnc body is an argument, like the server's answers and the number of writes that succeed.
-- WebAuth: webauth.go, the table of failed logins and the middleware, which is given what the cached check and
--   the check of a password say. Ranging over a Go map is going over its list, in whatever order that is.
-- NegCache: the cache of missing articles in ProxyHelper.go; its limit and the life of an entry (negCacheMax,
--   negCacheTTL) are arguments.
-- Passwd: passwd.go, the files of users (parsePasswdFile, verifyUser, appendPasswdUser) and loadPasswdFile of
--   ProxyHelper.go; bcrypt is an argument. A number and one more is enough fuel for its decimal digits.
-- Proxy: the NNTP proxy. Proxy.antt has upstreamCmd, upstreamBlock, readerProviders and selectGroup of Proxy.go,
--   Proxy/Commands its commands (`handle_group` is handleGroupCommand, ...), Proxy/Articles handleArticleCommand,
--   Proxy/ClientLines readCommandLine, and Proxy/Server the loop of handleConnection, turn by turn, with handleRequest and
--   login. A turn yields events: the codes that the client is sent, and what becomes of the connections to
--   the servers; Proxy/Order says in what order they may come. Proxy/Logins has the counts of clients in Server.go and
--   serveNNTP as steps of all connections, one at a time. What each server answers is an argument.
-- NzbDir: nzbdir.go, the watcher of a directory: `scan`, `process_one` and `loop`; what a scan finds and what
--   a run comes to are arguments.
-- Cache: the files of the article cache in Cache.go (CacheWriter, CacheReader, ReadCache) on a disk that is a map.
-- Examples: each theorem at a concrete input, and tests.
--
-- Mutexes make each step atomic and are not modelled otherwise; log lines, statistics, sleeps and deadlines are
-- left out. Not modelled: the dialling and the listeners (network), the HTTP handlers and templates over the job
-- queue, the start and end of a session's goroutines, flags and configuration, the writer of the decoded parts, the
-- C decoder, which is not Go code, and go-yenc-simd, a package that is not in the repository.
mod Prelude
pub mod Counter
pub mod MemLimit
pub mod Yenc
pub mod WebJobs
pub mod Items
pub mod Conns
pub mod Divider
pub mod Nntp
pub mod WebAuth
pub mod Rapid
pub mod NegCache
pub mod Passwd
pub mod Proxy
pub mod NzbDir
pub mod Cache
mod Examples
