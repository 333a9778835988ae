-- ===== src/Service/Server/Safety.antt =====
-- A connection ends for every environment, and leaves the database a ledger.
use purepy.Service.Database.Ledger.{IsLedger}
use purepy.Service.Host.{Host}
use purepy.Service.Server.{Outcome, returned, raised, out_of_fuel}

-- An invocation that ends, by a result or by an exception, over a ledger.
abbrev pub IsSafe : Outcome → Type 0
IsSafe (returned value host) = IsLedger host.db
IsSafe (raised host) = IsLedger host.db
IsSafe out_of_fuel = ⊥
