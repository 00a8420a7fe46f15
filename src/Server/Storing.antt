-- ===== src/Server/Storing.antt =====
-- The engine as the server's state machine: the database of src/engine/db.go behind the interface of
-- src/server/server.go.
use kvgo.Common.{List, ℕ}
use kvgo.Engine.Database.{
  Database, database_get, database_put_async, database_get-database_put_async,
}
use kvgo.Server.{StateMachine}

abbrev pub database_machine : (List ℕ → ℕ) → StateMachine Database
database_machine hash = record {
  put_async = λ key bytes db. (database_put_async hash key bytes db).0;
  get = λ key db. (database_get hash key db).0;
  get-put_async = λ k j v db. database_get-database_put_async hash k j v db;
}
