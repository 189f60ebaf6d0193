-- ===== src/Svc/Calls.antt =====
-- The data of svc_handler.c: the registers, the system calls with their numbers, and the calls of the
-- kernel's parts.
use vinix_os.Base.{ℕ, List, [], ◌∷◌, Option}
use vinix_os.Base.Int.{ℤ}

abbrev pub user_space_va : ℕ
user_space_va = 0x40000000

abbrev pub user_space_end : ℕ
user_space_end = 0x40100000

abbrev pub max_path : ℕ
max_path = 256

-- sizeof(process_info_t), sizeof(file_info_t), sizeof(dev_info_t), sizeof(mem_info_t)
abbrev pub process_info_size : ℕ
process_info_size = 40

abbrev pub file_info_size : ℕ
file_info_size = 36

abbrev pub dev_info_size : ℕ
dev_info_size = 40

abbrev pub mem_info_size : ℕ
mem_info_size = 24

-- The registers of `struct svc_context` that the handler uses.
pub record Context : Type 0 where
  pub r0 : ℕ
  pub r1 : ℕ
  pub r2 : ℕ
  pub r3 : ℕ
  pub r7 : ℕ
  pub lr : ℕ

-- The calls of other parts of the kernel, with their arguments, and the handler's own stores through a
-- user's pointer.
pub data Call : Type 0 where
  put_chars : (buf len : ℕ) → Call
  wait_char : Call
  store : (address len : ℕ) → (value : ℤ) → Call
  store_meminfo : (address : ℕ) → Call
  restore_init : (dst len : ℕ) → Call
  task_exit : (status : ℕ) → Call
  yield_now : Call
  get_tasks : (buf max_count : ℕ) → Call
  list_devices : (buf max_count : ℕ) → Call
  open_file : (path flags : ℕ) → Call
  read_file : (fd buf len : ℕ) → Call
  write_file : (fd buf len : ℕ) → Call
  close_file : (fd : ℕ) → Call
  list_dir : (path entries max_entries : ℕ) → Call
  exec_file : (path argv : ℕ) → Call
  fork_task : Call
  dup_file : (fd : ℕ) → Call
  dup2_file : (old_fd new_fd : ℕ) → Call
  unlink_file : (path : ℕ) → Call
  rename_file : (old_path new_path : ℕ) → Call
  kill_task : (pid exit_code : ℕ) → Call
  wait_child : Call

-- The system calls, in the order of their numbers.
pub data Syscall : Type 0 where
  nr_write nr_exit nr_yield nr_read nr_get_tasks nr_get_meminfo nr_open nr_read_file nr_close
        nr_listdir nr_exec nr_write_file nr_fork nr_wait :
      Syscall
  nr_getpid nr_getppid nr_kill nr_dup nr_dup2 nr_devlist nr_unlink nr_rename : Syscall

abbrev pub syscalls : List Syscall
syscalls =
    nr_write ∷ nr_exit ∷ nr_yield ∷ nr_read ∷ nr_get_tasks ∷ nr_get_meminfo ∷ nr_open ∷ nr_read_file
    ∷ nr_close ∷ nr_listdir ∷ nr_exec ∷ nr_write_file ∷ nr_fork ∷ nr_wait ∷ nr_getpid ∷ nr_getppid
    ∷ nr_kill ∷ nr_dup ∷ nr_dup2 ∷ nr_devlist ∷ nr_unlink ∷ nr_rename ∷ []

-- What the handler uses of the rest of the kernel: the result of each call, the pid and ppid of the
-- current task, the status that the last wait has left, the registers that an exec has set, and the size
-- of the program of init in the kernel's image, from the linker's symbols `_shell_payload_start` and
-- `_shell_payload_end`.
pub record Kernel : Type 1 where
  pub State : Type 0
  pub answer : Call → State → ℤ × State
  pub current_pid : State → Option ℤ
  pub current_ppid : State → Option ℤ
  pub wait_status : State → ℤ
  pub exec_context : Context → State → Context
  pub payload_size : ℕ
