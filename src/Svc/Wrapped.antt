-- ===== src/Svc/Wrapped.antt =====
-- The sizes of tables in svc_handler.c, where they do not fit 32 bits.
use vinix_os.Base.{ℕ, ◌+◌, ◌*◌, ◌^◌, ◌<◌, ◌≡◌, refl, true, [], ◌∷◌, arith}
use vinix_os.Svc.Calls.{
  user_space_end, max_path, process_info_size, file_info_size, dev_info_size, Context, get_tasks,
  list_devices, list_dir, Kernel,
}
use vinix_os.Svc.Handlers.{
  sys_get_tasks, sys_listdir, validate_user_pointer, call, guarded, guarded_twice,
}
use vinix_os.Svc.{handle, dispatch_call, svc_handler}
use vinix_os.Svc.Confined.{InUser}

validate_lem : (start len : ℕ) → InUser start len → validate_user_pointer start len ≡ true
unfolding validate_user_pointer
validate_lem start len inside = ground (arith, inside.0, inside.1)

-- Wherever 32 bytes lie in user space, each of the three calls that fill a table can be given them as
-- its buffer with a number of entries, of 32 bits, for which the handler has the table filled although
-- it ends behind user space; SYS_LISTDIR with any path in user space.
pub svc_handler-wraps :
    (kernel : Kernel) (ctx : Context) (s : Kernel.State kernel) (buf path : ℕ)
    → InUser buf 32
    → InUser path max_path
    → ((n : ℕ) × (n < 2 ^ 32)
        × (user_space_end < buf + n * process_info_size)
        × ((svc_handler kernel (record ctx { r0 = buf; r1 = n; r7 = 4 }) s).calls
            ≡ get_tasks buf n ∷ []))
      × ((n : ℕ) × (n < 2 ^ 32)
          × (user_space_end < buf + n * dev_info_size)
          × ((svc_handler kernel (record ctx { r0 = buf; r1 = n; r7 = 19 }) s).calls
              ≡ list_devices buf n ∷ []))
      × ((n : ℕ) × (n < 2 ^ 32)
          × (user_space_end < buf + n * file_info_size)
          × ((svc_handler kernel (record ctx { r0 = path; r1 = buf; r2 = n; r7 = 9 }) s).calls
              ≡ list_dir path buf n ∷ []))
unfolding sys_get_tasks sys_listdir svc_handler dispatch_call handle guarded guarded_twice call
svc_handler-wraps kernel ctx s buf path inside named =
    let short : validate_user_pointer buf 24 ≡ true =
      validate_lem buf 24 (inside.0, omega (arith, inside.1)) in
    let longer : validate_user_pointer buf 32 ≡ true = validate_lem buf 32 inside in
    let valid : validate_user_pointer path 256 ≡ true = validate_lem path 256 named in
    (
      (107374183, omega arith, omega (arith, inside.0), rw short refl),
      (107374183, omega arith, omega (arith, inside.0), rw short refl),
      (119304648, omega arith, omega (arith, inside.0), rw (valid, longer) refl),
    )
