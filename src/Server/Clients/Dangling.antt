-- ===== src/Server/Clients/Dangling.antt =====
-- The joined list of a session in server/clients.c after a dynamic channel was deleted.
use bspd.Server.Session.{Session}
