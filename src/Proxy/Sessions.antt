-- ===== src/Proxy/Sessions.antt =====
-- Server.go: what holds of each turn of a connection's loop.
use nzbre_x.Prelude.{nat_eq, list_eq}
use nzbre_x.Proxy.Server.{Served}
use nzbre_x.Proxy.Replies.{AnswersOnce}

abbrev TurnOnce : Served → Type 0
TurnOnce t = AnswersOnce t.events
