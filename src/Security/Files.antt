-- ===== src/Security/Files.antt =====
-- `std::fs`, `std::env` and the clock, which the program calls: the operations that it uses over a
-- state of the machine, each with the error that it may end in, and what is documented of them.
use shapeport.Prelude.{ℕ, ◌≡◌, Bool, List}
use shapeport.Error.{Result, ok}
use shapeport.Security.Components.{PathBuf}

-- A `Vec<u8>`.
abbrev pub Bytes : Type 0
Bytes = List ℕ

-- `len`, and `modified` in nanoseconds.
pub record Metadata : Type 0 where
  pub size : ℕ
  pub modified : Result ℕ

pub record FileSystem (World : Type 0) : Type 0 where
  pub exists : World → PathBuf → Bool
  pub canonicalize : World → PathBuf → Result PathBuf
  pub current_dir : World → Result PathBuf
  -- `fs::metadata`
  pub metadata : World → PathBuf → Result Metadata
  pub read : World → PathBuf → Result Bytes
  pub write : World → PathBuf → Bytes → Result World
  pub create_dir_all : World → PathBuf → Result World
  -- `read_to_end` of the standard input
  pub read_stdin : World → Result Bytes
  -- `SystemTime::now`, in nanoseconds
  pub now : World → ℕ
  -- what was written is read back
  pub read_write : (w w' : World) (p : PathBuf) (b : Bytes) → write w p b ≡ ok w' → read w' p ≡ ok b
