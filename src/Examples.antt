-- ===== src/Examples.antt =====
-- The theorems at concrete inputs, and tests.
mod Counter
mod MemLimit
mod Yenc
mod WebJobs
mod Items
mod Conns
mod Divider
mod Nntp
mod WebAuth
mod Rapid
mod NegCache
mod Passwd
mod Proxy
mod NzbDir
mod Cache
