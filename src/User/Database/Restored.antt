-- ===== src/User/Database/Restored.antt =====
-- What the statements of user/atdr_linux/atdr_db.c keep over a restart: the entries that are read
-- back from the tables `partner` and `resync` against the calls that wrote them.
use greko.User.Database.Tables.{Tables}
