-- ===== src/Tests/Serving.antt =====
-- A run of the stress script against a server that keeps its tickets.
use polyglot_ticketing_v.Base.{none}
use polyglot_ticketing_v.Stress.{}
use polyglot_ticketing_v.Tests.Samples.TicketServer.{Server}

abbrev empty : Server
empty = record { next = 0; held = λ n. none }
