-- ===== src/Server/Session/Answered.antt =====
-- A run of commands through executeCommand in pkg/server/server.go comes to its end.
use fast_and_accurate_store.Server.State.{Server}
