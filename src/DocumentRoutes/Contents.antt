-- ===== src/DocumentRoutes/Contents.antt =====
-- The contents of a case's documents differ.
use legal_bridge.Auth.Principal.{Principal}
