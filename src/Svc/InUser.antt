-- ===== src/Svc/InUser.antt =====
-- Where the memory lies that the calls of svc_handler.c are given.
use vinix_os.Base.{
  ℕ, ◌*◌, ◌≤◌, ◌≡◌, Bool, true, false, not, ◌&&◌, Option, none, some, ◌==◌, ltb, get_elem?, arith,
  inl, inr, Bool-cases,
}
use vinix_os.Base.Int.{pos, minus_one, ◌==ℤ◌, is_neg}
use vinix_os.Svc.Calls.{
  process_info_size, file_info_size, dev_info_size, Context, Call, wait_char, exec_file, wait_child,
  Syscall, nr_write, nr_exit, nr_yield, nr_read, nr_get_tasks, nr_get_meminfo, nr_open,
  nr_read_file, nr_close, nr_listdir, nr_exec, nr_write_file, nr_fork, nr_wait, nr_getpid,
  nr_getppid, nr_kill, nr_dup, nr_dup2, nr_devlist, nr_unlink, nr_rename, syscalls, Kernel,
}
use vinix_os.Svc.Handlers.{
  validate_user_pointer, pid_or, refuse_call, call, call_for, sys_write_chars, sys_write, sys_exit,
  sys_read_char, sys_read, guarded, guarded_twice, sys_get_meminfo, sys_exec, sys_yield,
  sys_get_tasks, sys_open, sys_read_file, sys_write_file, sys_close, sys_listdir, sys_wait,
}
use vinix_os.Svc.{handle, dispatch_call, svc_handler}
use vinix_os.Svc.Confined.{
  InUser, IsConfined, AllConfined, Fits, AreWords, validate-InUser, table-InUser,
}

module _ (kernel : Kernel) (ctx : Context) (s : Kernel.State kernel) (words : AreWords ctx)
    (payload_fits : Kernel.payload_size kernel ≤ 0x100000) where
  guarded-AllConfined :
      (start len : ℕ) (c : Call)
      → (validate_user_pointer start len ≡ true → IsConfined c)
      → AllConfined (guarded kernel start len c ctx s).calls
  unfolding guarded call refuse_call
  guarded-AllConfined start len c h = elim (Bool-cases (validate_user_pointer start len)) [
    | inl valid ↦ rw valid (h valid, tt)
    | inr bad ↦ rw bad tt
  ]

  guarded_twice-AllConfined :
      (start len start' len' : ℕ) (c : Call)
      → (validate_user_pointer start len ≡ true
          → validate_user_pointer start' len' ≡ true
          → IsConfined c)
      → AllConfined (guarded_twice kernel start len start' len' c ctx s).calls
  unfolding guarded_twice call refuse_call
  guarded_twice-AllConfined start len start' len' c h =
      elim (Bool-cases (validate_user_pointer start len)) [
        | inr bad ↦ rw bad tt
        | inl valid ↦ rw valid (elim (Bool-cases (validate_user_pointer start' len')) [
          | inl valid' ↦ rw valid' (h valid valid', tt)
          | inr bad' ↦ rw bad' tt
        ])
      ]

  sys_write_chars-AllConfined :
      (fd buf len : ℕ)
      → InUser buf len
      → AllConfined (sys_write_chars kernel fd buf len ctx s).calls
  unfolding sys_write_chars call_for refuse_call
  sys_write_chars-AllConfined fd buf len h = elim (Bool-cases (not (fd == 1) && not (fd == 2))) [
    | inl other ↦ rw other tt
    | inr out ↦
        rw out
          (elim (Bool-cases (ltb 256 len)) [ inl long ↦ rw long tt | inr short ↦ rw short (h, tt) ])
  ]

  sys_read_char-AllConfined :
      (fd buf len : ℕ) → InUser buf len → AllConfined (sys_read_char kernel fd buf len ctx s).calls
  unfolding sys_read_char refuse_call
  sys_read_char-AllConfined fd buf len h = elim (Bool-cases (fd == 0)) [
    | inr other ↦ rw other tt
    | inl input ↦ rw input (elim (Bool-cases (validate_user_pointer buf len)) [
      | inr bad ↦ rw bad tt
      | inl valid ↦ rw valid (elim (Bool-cases (len == 0)) [
        | inl empty ↦ rw empty tt
        | inr some_len ↦
            rw some_len (elim (Bool-cases ((Kernel.answer kernel wait_char s).0 ==ℤ minus_one)) [
              | inl nothing ↦ rw nothing (tt, tt)
              | inr got ↦ rw got (tt, ((h.0, ground (arith, h.1, some_len)), tt))
            ])
      ])
    ])
  ]

  sys_write-AllConfined : AllConfined (sys_write kernel ctx s).calls
  unfolding sys_write refuse_call
  sys_write-AllConfined = elim (Bool-cases (validate_user_pointer ctx.r0 ctx.r1)) [
    | inl valid ↦ rw valid (
        sys_write_chars-AllConfined 1 ctx.r0 ctx.r1
          (validate-InUser _ _ words.word0 words.word1 valid))
    | inr bad ↦ rw bad (elim (Bool-cases (validate_user_pointer ctx.r1 ctx.r2)) [
      | inl valid ↦ rw valid (
          sys_write_chars-AllConfined ctx.r0 ctx.r1 ctx.r2
            (validate-InUser _ _ words.word1 words.word2 valid))
      | inr worse ↦ rw worse tt
    ])
  ]

  sys_read-AllConfined : AllConfined (sys_read kernel ctx s).calls
  unfolding sys_read refuse_call
  sys_read-AllConfined = elim (Bool-cases (validate_user_pointer ctx.r0 ctx.r1)) [
    | inl valid ↦ rw valid (
        sys_read_char-AllConfined 0 ctx.r0 ctx.r1
          (validate-InUser _ _ words.word0 words.word1 valid))
    | inr bad ↦ rw bad (elim (Bool-cases (validate_user_pointer ctx.r1 ctx.r2)) [
      | inl valid ↦ rw valid (
          sys_read_char-AllConfined ctx.r0 ctx.r1 ctx.r2
            (validate-InUser _ _ words.word1 words.word2 valid))
      | inr worse ↦ rw worse tt
    ])
  ]

  sys_exit-AllConfined : AllConfined (sys_exit kernel ctx s).calls
  unfolding sys_exit call_for
  sys_exit-AllConfined = elim (Bool-cases (pid_or (Kernel.current_pid kernel s) ==ℤ pos 1)) [
    | inl init ↦ rw init ((omega arith, omega (arith, payload_fits)), tt)
    | inr other ↦ rw other (tt, tt)
  ]

  sys_get_meminfo-AllConfined : AllConfined (sys_get_meminfo kernel ctx s).calls
  unfolding sys_get_meminfo call_for refuse_call
  sys_get_meminfo-AllConfined = elim (Bool-cases (validate_user_pointer ctx.r0 24)) [
    | inl valid ↦ rw valid (validate-InUser _ _ words.word0 (omega arith) valid, tt)
    | inr bad ↦ rw bad tt
  ]

  sys_exec-AllConfined : AllConfined (sys_exec kernel ctx s).calls
  unfolding sys_exec call call_for refuse_call
  sys_exec-AllConfined = elim (Bool-cases (validate_user_pointer ctx.r0 256)) [
    | inr bad ↦ rw bad tt
    | inl valid ↦
        let path : InUser ctx.r0 256 = validate-InUser _ _ words.word0 (omega arith) valid in
        rw valid (elim (Bool-cases (is_neg (Kernel.answer kernel (exec_file ctx.r0 ctx.r1) s).0)) [
          | inl failed ↦ rw failed (path, tt)
          | inr done ↦ rw done (path, tt)
        ])
  ]

  sys_wait-AllConfined : AllConfined (sys_wait kernel ctx s).calls
  unfolding sys_wait
  sys_wait-AllConfined =
      let got : Bool = not (is_neg (Kernel.answer kernel wait_child s).0) && not (ctx.r0 == 0) in
      elim (Bool-cases (validate_user_pointer ctx.r0 4)) [
        | inl valid ↦ rw valid (elim (Bool-cases (got && true)) [
          | inl stored ↦ rw stored (tt, (validate-InUser _ _ words.word0 (omega arith) valid, tt))
          | inr kept ↦ rw kept (tt, tt)
        ])
        | inr bad ↦ rw bad (elim (Bool-cases (got && false)) [
          | inl stored ↦ absurd (ground (arith, stored))
          | inr kept ↦ rw kept (tt, tt)
        ])
      ]

  handle-AllConfined : (c : Syscall) → Fits (some c) ctx → AllConfined (handle kernel c ctx s).calls
  unfolding handle sys_yield sys_get_tasks sys_open sys_read_file sys_write_file sys_close
      sys_listdir call call_for
  handle-AllConfined nr_write fits = sys_write-AllConfined
  handle-AllConfined nr_exit fits = sys_exit-AllConfined
  handle-AllConfined nr_yield fits = (tt, tt)
  handle-AllConfined nr_read fits = sys_read-AllConfined
  handle-AllConfined nr_get_tasks fits =
      guarded-AllConfined _ _ _ (table-InUser ctx.r0 (ctx.r1 * process_info_size) words.word0 fits)
  handle-AllConfined nr_get_meminfo fits = sys_get_meminfo-AllConfined
  handle-AllConfined nr_open fits =
      guarded-AllConfined _ _ _ (validate-InUser _ _ words.word0 (omega arith))
  handle-AllConfined nr_read_file fits =
      guarded-AllConfined _ _ _ (validate-InUser _ _ words.word1 words.word2)
  handle-AllConfined nr_close fits = (tt, tt)
  handle-AllConfined nr_listdir fits = guarded_twice-AllConfined _ _ _ _ _ (λ v v'. (
    validate-InUser _ _ words.word0 (omega arith) v,
    table-InUser ctx.r1 (ctx.r2 * file_info_size) words.word1 fits v',
  ))
  handle-AllConfined nr_exec fits = sys_exec-AllConfined
  handle-AllConfined nr_write_file fits =
      guarded-AllConfined _ _ _ (validate-InUser _ _ words.word1 words.word2)
  handle-AllConfined nr_fork fits = (tt, tt)
  handle-AllConfined nr_wait fits = sys_wait-AllConfined
  handle-AllConfined nr_getpid fits = tt
  handle-AllConfined nr_getppid fits = tt
  handle-AllConfined nr_kill fits = (tt, tt)
  handle-AllConfined nr_dup fits = (tt, tt)
  handle-AllConfined nr_dup2 fits = (tt, tt)
  handle-AllConfined nr_devlist fits =
      guarded-AllConfined _ _ _ (table-InUser ctx.r0 (ctx.r1 * dev_info_size) words.word0 fits)
  handle-AllConfined nr_unlink fits =
      guarded-AllConfined _ _ _ (validate-InUser _ _ words.word0 (omega arith))
  handle-AllConfined nr_rename fits = guarded_twice-AllConfined _ _ _ _ _ (λ v v'. (
    validate-InUser _ _ words.word0 (omega arith) v,
    validate-InUser _ _ words.word1 (omega arith) v',
  ))

  dispatch_call-AllConfined :
      (c : Option Syscall) → Fits c ctx → AllConfined (dispatch_call kernel c ctx s).calls
  unfolding dispatch_call refuse_call
  dispatch_call-AllConfined none fits = tt
  dispatch_call-AllConfined (some c) fits = handle-AllConfined c fits

-- For arguments of 32 bits, if the size of a table that the call asks for fits 32 bits, too, and init's
-- program fits the megabyte of user space, every buffer, table and path whose address a system call
-- passes on lies in user space, and so do the handler's own stores and the copy that restarts init,
-- whatever the other parts of the kernel answer. The argument vector of an exec is not covered.
pub svc_handler-AllConfined :
    (kernel : Kernel) (ctx : Context) (s : Kernel.State kernel)
    → AreWords ctx
    → Fits (get_elem? syscalls ctx.r7) ctx
    → Kernel.payload_size kernel ≤ 0x100000
    → AllConfined (svc_handler kernel ctx s).calls
unfolding svc_handler
svc_handler-AllConfined kernel ctx s words fits payload_fits =
    dispatch_call-AllConfined kernel ctx s words payload_fits (get_elem? syscalls ctx.r7) fits
