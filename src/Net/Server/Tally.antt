-- ===== src/Net/Server/Tally.antt =====
-- The connections that a server of src/net/server/server.cpp holds, and those that its users heard of.
use sheep_cpp.Base.{[]}
use sheep_cpp.Net.Server.{Server}
use sheep_cpp.Net.Server.Visits.{World}

abbrev pub no_connections : Server → World
no_connections s = record { server = s; live = []; failed = []; stale = [] }
