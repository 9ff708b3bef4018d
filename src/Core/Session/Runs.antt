-- ===== src/Core/Session/Runs.antt =====
-- A whole session: its calls, its actions in the browser and the ends of its steps.
use trawler.Core.Session.{Session}
