-- ===== src/Svc/Confined.antt =====
-- What it means that a call of svc_handler.c is confined to user space, and what its check gives.
use vinix_os.Base.{ℕ, ◌+◌, ◌*◌, ◌%◌, ◌^◌, ◌<◌, ◌≤◌, ◌≡◌, true, Option, some, List, [], ◌∷◌, arith}
use vinix_os.Svc.Calls.{
  user_space_va, user_space_end, max_path, process_info_size, file_info_size, dev_info_size,
  mem_info_size, Context, Call, put_chars, store, store_meminfo, restore_init, get_tasks,
  list_devices, open_file, read_file, write_file, list_dir, exec_file, unlink_file, rename_file,
  Syscall, nr_get_tasks, nr_listdir, nr_devlist,
}
use vinix_os.Svc.Handlers.{validate_user_pointer}

-- `len` bytes from `start` on lie in user space.
abbrev pub InUser : (start len : ℕ) → Type 0
InUser start len = (user_space_va ≤ start) × (start + len ≤ user_space_end)

-- The memory at the addresses that a call is given lies in user space: a buffer with its length, a table
-- with all its entries, a path with the longest length of one, and what init's program is copied over.
-- Of an exec only the path counts: the handler passes the argument vector on unchecked, for `do_exec`
-- to validate, and nothing is said of it. The calls that get no address count as confined.
abbrev pub IsConfined : Call → Type 0
IsConfined (put_chars buf len) = InUser buf len
IsConfined (store address len value) = InUser address len
IsConfined (restore_init dst len) = InUser dst len
IsConfined (store_meminfo address) = InUser address mem_info_size
IsConfined (get_tasks buf max_count) = InUser buf (max_count * process_info_size)
IsConfined (list_devices buf max_count) = InUser buf (max_count * dev_info_size)
IsConfined (open_file path flags) = InUser path max_path
IsConfined (read_file fd buf len) = InUser buf len
IsConfined (write_file fd buf len) = InUser buf len
IsConfined (list_dir path entries max_entries) =
    InUser path max_path × InUser entries (max_entries * file_info_size)
IsConfined (exec_file path argv) = InUser path max_path
IsConfined (unlink_file path) = InUser path max_path
IsConfined (rename_file old_path new_path) = InUser old_path max_path × InUser new_path max_path
IsConfined _ = Unit {0}

abbrev pub AllConfined : List Call → Type 0
AllConfined [] = Unit {0}
AllConfined (c ∷ cs) = IsConfined c × AllConfined cs

-- The size of the table that a call asks for fits 32 bits.
abbrev pub Fits : Option Syscall → Context → Type 0
Fits (some nr_get_tasks) ctx = ctx.r1 * process_info_size < 2 ^ 32
Fits (some nr_listdir) ctx = ctx.r2 * file_info_size < 2 ^ 32
Fits (some nr_devlist) ctx = ctx.r1 * dev_info_size < 2 ^ 32
Fits _ ctx = Unit {0}

-- The arguments are 32-bit numbers.
pub record AreWords (ctx : Context) : Type 0 where
  pub word0 : ctx.r0 < 2 ^ 32
  pub word1 : ctx.r1 < 2 ^ 32
  pub word2 : ctx.r2 < 2 ^ 32

pub validate-InUser :
    (start len : ℕ)
    → start < 2 ^ 32
    → len < 2 ^ 32
    → validate_user_pointer start len ≡ true
    → InUser start len
unfolding validate_user_pointer
validate-InUser start len small short h = (ground (arith, h), ground (arith, h))

-- A table whose size is computed in 32 bits
pub table-InUser :
    (start size : ℕ)
    → start < 2 ^ 32
    → size < 2 ^ 32
    → validate_user_pointer start (size % 2 ^ 32) ≡ true
    → InUser start size
table-InUser start size small short h =
    let checked = validate-InUser start (size % 2 ^ 32) small (omega arith) h in
    (checked.0, omega (arith, checked.1))
