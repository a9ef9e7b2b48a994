-- ===== src/Session/Whole.antt =====
-- A whole call of wt_handle_inbound_data of server/worker.c.
use lwmsg.Session.{Session}
