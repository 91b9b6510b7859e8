-- ===== src/Process/Exit.antt =====
-- A task that ends by `do_exit`.
use freak_os.Sched.{Sched}
