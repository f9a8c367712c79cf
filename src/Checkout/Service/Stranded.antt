-- ===== src/Checkout/Service/Stranded.antt =====
-- A paid order whose reservation is lost, in a session whose rollback expires the loaded rows.
use arena_onsale.Settings.{Settings}
