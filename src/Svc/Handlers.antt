-- ===== src/Svc/Handlers.antt =====
-- The handlers of svc_handler.c, with the check of user pointers.
use vinix_os.Base.{
  ℕ, ◌+◌, ◌*◌, ◌%◌, ◌^◌, Bool, not, ◌&&◌, Option, none, some, List, [], ◌∷◌, ◌==◌, ltb, leb,
  if◌then◌else◌,
}
use vinix_os.Base.Int.{ℤ, pos, negsuc, minus_one, ◌==ℤ◌, is_neg}
use vinix_os.Base.Result.{Errno, fail, inval, arg, ptr, perm, noent, badf, mfile}
use vinix_os.Svc.Calls.{
  user_space_va, user_space_end, max_path, process_info_size, file_info_size, mem_info_size,
  Context, Call, Kernel, put_chars, wait_char, store, store_meminfo, restore_init, task_exit,
  yield_now, get_tasks, open_file, read_file, write_file, close_file, list_dir, exec_file,
  wait_child,
}

-- E_FAIL to E_MFILE
unfoldable pub error_code : Errno → ℤ
error_code fail = negsuc 0
error_code inval = negsuc 1
error_code arg = negsuc 2
error_code ptr = negsuc 3
error_code perm = negsuc 4
error_code noent = negsuc 5
error_code badf = negsuc 6
error_code mfile = negsuc 7

-- `validate_user_pointer`
unfoldable pub validate_user_pointer : (start len : ℕ) → Bool
validate_user_pointer start len =
    let end = (start + len) % 2 ^ 32 in
    not (ltb end start) && leb user_space_va start && leb end user_space_end

abbrev pub pid_or : Option ℤ → ℤ
pid_or none = minus_one
pid_or (some pid) = pid

-- `(sig > 0) ? (128 + sig) : 137` for a signed argument
abbrev pub exit_code : ℕ → ℕ
exit_code sig = if not (sig == 0) && ltb sig (2 ^ 31) then 128 + sig else 137

module _ (kernel : Kernel) where
  open kernel use {answer, current_pid, current_ppid, wait_status, exec_context, payload_size}

  -- What a system call returns, the registers, and the calls that it has made.
  pub record Reply : Type 0 where
    pub result : ℤ
    pub ctx : Context
    pub calls : List Call
    pub state : Kernel.State kernel

  unfoldable pub refuse_call : Errno → Context → Kernel.State kernel → Reply
  refuse_call e ctx s = record { result = error_code e; ctx = ctx; calls = []; state = s }

  unfoldable pub call : Call → Context → Kernel.State kernel → Reply
  call c ctx s = record {
    result = (answer c s).0;
    ctx = ctx;
    calls = c ∷ [];
    state = (answer c s).1;
  }

  -- A call after which the result is this one.
  unfoldable pub call_for : ℤ → Call → Context → Kernel.State kernel → Reply
  call_for result c ctx s = record {
    result = result;
    ctx = ctx;
    calls = c ∷ [];
    state = (answer c s).1;
  }

  unfoldable pub sys_write_chars : (fd buf len : ℕ) → Context → Kernel.State kernel → Reply
  sys_write_chars fd buf len ctx s =
      if not (fd == 1) && not (fd == 2)
      then refuse_call arg ctx s
      else if ltb 256 len
      then refuse_call arg ctx s
      else call_for (pos len) (put_chars buf len) ctx s

  unfoldable pub sys_write : Context → Kernel.State kernel → Reply
  sys_write ctx s =
      if validate_user_pointer ctx.r0 ctx.r1
      then sys_write_chars 1 ctx.r0 ctx.r1 ctx s
      else if validate_user_pointer ctx.r1 ctx.r2
      then sys_write_chars ctx.r0 ctx.r1 ctx.r2 ctx s
      else refuse_call ptr ctx s

  unfoldable pub sys_exit : Context → Kernel.State kernel → Reply
  sys_exit ctx s =
      if pid_or (current_pid s) ==ℤ pos 1
      then call_for (pos 0) (restore_init user_space_va payload_size)
          (record ctx { r0 = 0; r1 = 0; r2 = 0; r3 = 0; lr = user_space_va }) s
      else call_for (pos 0) (task_exit ctx.r0) ctx s

  unfoldable pub sys_read_char : (fd buf len : ℕ) → Context → Kernel.State kernel → Reply
  sys_read_char fd buf len ctx s =
      let (c, s') = answer wait_char s in
      if not (fd == 0)
      then refuse_call arg ctx s
      else if not (validate_user_pointer buf len)
      then refuse_call ptr ctx s
      else if len == 0
      then record { result = pos 0; ctx = ctx; calls = []; state = s }
      else if c ==ℤ minus_one
      then record { result = pos 0; ctx = ctx; calls = wait_char ∷ []; state = s' }
      else record {
        result = pos 1;
        ctx = ctx;
        calls = wait_char ∷ store buf 1 c ∷ [];
        state = (answer (store buf 1 c) s').1;
      }

  unfoldable pub sys_read : Context → Kernel.State kernel → Reply
  sys_read ctx s =
      if validate_user_pointer ctx.r0 ctx.r1
      then sys_read_char 0 ctx.r0 ctx.r1 ctx s
      else if validate_user_pointer ctx.r1 ctx.r2
      then sys_read_char ctx.r0 ctx.r1 ctx.r2 ctx s
      else refuse_call ptr ctx s

  -- A call that is made if a range of user memory is valid.
  unfoldable pub guarded : (start len : ℕ) → Call → Context → Kernel.State kernel → Reply
  guarded start len c ctx s =
      if validate_user_pointer start len then call c ctx s else refuse_call ptr ctx s

  unfoldable pub guarded_twice :
      (start len start' len' : ℕ) → Call → Context → Kernel.State kernel → Reply
  guarded_twice start len start' len' c ctx s =
      if not (validate_user_pointer start len)
      then refuse_call ptr ctx s
      else if not (validate_user_pointer start' len')
      then refuse_call ptr ctx s
      else call c ctx s

  unfoldable pub sys_yield : Context → Kernel.State kernel → Reply
  sys_yield ctx s = call_for (pos 0) yield_now ctx s

  unfoldable pub sys_get_tasks : Context → Kernel.State kernel → Reply
  sys_get_tasks ctx s =
      guarded ctx.r0 (ctx.r1 * process_info_size % 2 ^ 32) (get_tasks ctx.r0 ctx.r1) ctx s

  unfoldable pub sys_open : Context → Kernel.State kernel → Reply
  sys_open ctx s = guarded ctx.r0 max_path (open_file ctx.r0 ctx.r1) ctx s

  unfoldable pub sys_read_file : Context → Kernel.State kernel → Reply
  sys_read_file ctx s = guarded ctx.r1 ctx.r2 (read_file ctx.r0 ctx.r1 ctx.r2) ctx s

  unfoldable pub sys_write_file : Context → Kernel.State kernel → Reply
  sys_write_file ctx s = guarded ctx.r1 ctx.r2 (write_file ctx.r0 ctx.r1 ctx.r2) ctx s

  unfoldable pub sys_close : Context → Kernel.State kernel → Reply
  sys_close ctx s = call (close_file ctx.r0) ctx s

  unfoldable pub sys_listdir : Context → Kernel.State kernel → Reply
  sys_listdir ctx s =
      guarded_twice ctx.r0 max_path ctx.r1 (ctx.r2 * file_info_size % 2 ^ 32)
        (list_dir ctx.r0 ctx.r1 ctx.r2) ctx s

  unfoldable pub sys_get_meminfo : Context → Kernel.State kernel → Reply
  sys_get_meminfo ctx s =
      if validate_user_pointer ctx.r0 mem_info_size
      then call_for (pos 0) (store_meminfo ctx.r0) ctx s
      else refuse_call ptr ctx s

  -- On success the registers are those that `do_exec` has set, and its `r0` is returned.
  unfoldable pub sys_exec : Context → Kernel.State kernel → Reply
  sys_exec ctx s =
      let (rc, s') = answer (exec_file ctx.r0 ctx.r1) s in
      let ctx' = exec_context ctx s' in
      if not (validate_user_pointer ctx.r0 max_path)
      then refuse_call ptr ctx s
      else if is_neg rc
      then call (exec_file ctx.r0 ctx.r1) ctx s
      else call_for (pos ctx'.r0) (exec_file ctx.r0 ctx.r1) ctx' s

  unfoldable pub sys_wait : Context → Kernel.State kernel → Reply
  sys_wait ctx s =
      let (pid, s') = answer wait_child s in
      let st = wait_status s' in
      if not (is_neg pid) && not (ctx.r0 == 0) && validate_user_pointer ctx.r0 4
      then record {
        result = pid;
        ctx = ctx;
        calls = wait_child ∷ store ctx.r0 4 st ∷ [];
        state = (answer (store ctx.r0 4 st) s').1;
      }
      else record { result = pid; ctx = ctx; calls = wait_child ∷ []; state = s' }
