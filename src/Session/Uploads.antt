-- ===== src/Session/Uploads.antt =====
-- An upload, from its first header to the file.
use h2_server.Session.{Session}
