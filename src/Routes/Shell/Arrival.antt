-- ===== src/Routes/Shell/Arrival.antt =====
-- Going to an address from a stack.
use coachman.Routes.Shell.{Shell}
