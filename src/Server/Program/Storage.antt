-- ===== src/Server/Program/Storage.antt =====
-- Uploads and downloads on the files of the program.
use adb_termux_bridge.Server.Program.{Program}
use adb_termux_bridge.Ssl.{Ssl}
