-- ===== src/Error/Kind.antt =====
-- crates/shapeport-core/src/error.rs: `ErrorKind`, the stable categories.
use shapeport.Prelude.{ℕ}

pub data ErrorKind : Type 0 where
  usage parse schema ambiguity plan_validation transform target_validation security resource_limit
        io internal :
      ErrorKind

-- The discriminants, which are the exit codes of the command line.
unfoldable pub exit_code : ErrorKind → ℕ
exit_code ErrorKind.usage = 2
exit_code ErrorKind.parse = 3
exit_code ErrorKind.schema = 4
exit_code ErrorKind.ambiguity = 5
exit_code ErrorKind.plan_validation = 6
exit_code ErrorKind.transform = 7
exit_code ErrorKind.target_validation = 8
exit_code ErrorKind.security = 9
exit_code ErrorKind.resource_limit = 10
exit_code ErrorKind.io = 11
exit_code ErrorKind.internal = 12
