-- ===== src/Svc.antt =====
-- System calls, VinixOS/kernel/src/kernel/core/svc_handler.c: the checks of what user code passes, and
-- the calls of the kernel's parts that they guard.
pub mod Calls
pub mod Handlers
pub mod Confined
pub mod InUser
pub mod Wrapped
mod Tests
use vinix_os.Base.{
  ℕ, zero, suc, ◌+◌, ◌-◌, ◌*◌, ◌%◌, ◌^◌, Bool, true, false, not, ◌&&◌, ◌||◌, Option, none, some,
  List, [], ◌∷◌, ◌==◌, ltb, leb, if◌then◌else◌, get_elem?,
}
use vinix_os.Base.Int.{ℤ, pos, negsuc, minus_one, ◌==ℤ◌, is_neg}
use vinix_os.Base.Result.{Errno, fail, inval, arg, ptr, perm, noent, badf, mfile}
use vinix_os.Svc.Calls.{
  user_space_va, user_space_end, max_path, process_info_size, file_info_size, dev_info_size,
  mem_info_size, Context, Call, Syscall, syscalls, Kernel, put_chars, wait_char, store,
  store_meminfo, restore_init, task_exit, yield_now, get_tasks, list_devices, open_file, read_file,
  write_file, close_file, list_dir, exec_file, fork_task, dup_file, dup2_file, unlink_file,
  rename_file, kill_task, wait_child, nr_close, nr_devlist, nr_dup, nr_dup2, nr_exec, nr_exit,
  nr_fork, nr_get_meminfo, nr_get_tasks, nr_getpid, nr_getppid, nr_kill, nr_listdir, nr_open,
  nr_read, nr_read_file, nr_rename, nr_unlink, nr_wait, nr_write, nr_write_file, nr_yield,
}
use vinix_os.Svc.Handlers.{
  error_code, validate_user_pointer, pid_or, exit_code, Reply, refuse_call, call, call_for,
  sys_write_chars, sys_write, sys_exit, sys_read_char, sys_read, guarded, guarded_twice, sys_yield,
  sys_get_tasks, sys_open, sys_read_file, sys_write_file, sys_close, sys_listdir, sys_get_meminfo,
  sys_exec, sys_wait,
}

-- An `int32_t` in a register
unfoldable pub to_register : ℤ → ℕ
to_register (pos n) = n % 2 ^ 32
to_register (negsuc n) = 2 ^ 32 - 1 - n % 2 ^ 32

module _ (kernel : Kernel) where
  -- The cases of `svc_handler`.
  unfoldable pub handle : Syscall → Context → Kernel.State kernel → Reply kernel
  handle nr_write ctx s = sys_write kernel ctx s
  handle nr_exit ctx s = sys_exit kernel ctx s
  handle nr_yield ctx s = sys_yield kernel ctx s
  handle nr_read ctx s = sys_read kernel ctx s
  handle nr_get_tasks ctx s = sys_get_tasks kernel ctx s
  handle nr_get_meminfo ctx s = sys_get_meminfo kernel ctx s
  handle nr_open ctx s = sys_open kernel ctx s
  handle nr_read_file ctx s = sys_read_file kernel ctx s
  handle nr_close ctx s = sys_close kernel ctx s
  handle nr_listdir ctx s = sys_listdir kernel ctx s
  handle nr_exec ctx s = sys_exec kernel ctx s
  handle nr_write_file ctx s = sys_write_file kernel ctx s
  handle nr_fork ctx s = call kernel fork_task ctx s
  handle nr_wait ctx s = sys_wait kernel ctx s
  handle nr_getpid ctx s = record {
    result = pid_or (Kernel.current_pid kernel s);
    ctx = ctx;
    calls = [];
    state = s;
  }
  handle nr_getppid ctx s = record {
    result = pid_or (Kernel.current_ppid kernel s);
    ctx = ctx;
    calls = [];
    state = s;
  }
  handle nr_kill ctx s = call kernel (kill_task ctx.r0 (exit_code ctx.r1)) ctx s
  handle nr_dup ctx s = call kernel (dup_file ctx.r0) ctx s
  handle nr_dup2 ctx s = call kernel (dup2_file ctx.r0 ctx.r1) ctx s
  handle nr_devlist ctx s =
      guarded kernel ctx.r0 (ctx.r1 * dev_info_size % 2 ^ 32) (list_devices ctx.r0 ctx.r1) ctx s
  handle nr_unlink ctx s = guarded kernel ctx.r0 max_path (unlink_file ctx.r0) ctx s
  handle nr_rename ctx s =
      guarded_twice kernel ctx.r0 max_path ctx.r1 max_path (rename_file ctx.r0 ctx.r1) ctx s

  unfoldable pub dispatch_call : Option Syscall → Context → Kernel.State kernel → Reply kernel
  dispatch_call none ctx s = refuse_call kernel inval ctx s
  dispatch_call (some c) ctx s = handle c ctx s

  -- The result goes into `r0` of the registers that the call kernel leaves.
  unfoldable pub svc_handler : Context → Kernel.State kernel → Reply kernel
  svc_handler ctx s =
      let reply = dispatch_call (get_elem? syscalls ctx.r7) ctx s in
      record reply { ctx = record reply.ctx { r0 = to_register reply.result } }
