-- ===== src/Svc/Tests.antt =====
-- Runs of the model of svc_handler.c at concrete inputs.
use vinix_os.Base.{ℕ, ◌+◌, ◌*◌, ◌^◌, ◌<◌, ◌≡◌, refl, some, List, [], ◌∷◌, arith}
use vinix_os.Base.Int.{pos}
use vinix_os.Svc.Calls.{
  user_space_end, process_info_size, file_info_size, dev_info_size, Context, Call, get_tasks,
  list_devices, list_dir, Kernel,
}
use vinix_os.Svc.Handlers.{
  sys_read_file, validate_user_pointer, error_code, refuse_call, call, guarded,
}
use vinix_os.Svc.{to_register, handle, dispatch_call, svc_handler}
use vinix_os.Svc.Confined.{AllConfined}
use vinix_os.Svc.InUser.{svc_handler-AllConfined}
use vinix_os.Svc.Wrapped.{svc_handler-wraps}

-- Every call returns 7.
abbrev sevens : Kernel
sevens = record {
  State = ℕ;
  answer = λ c s. (pos 7, s + 1);
  current_pid = λ s. some (pos 2);
  current_ppid = λ s. some (pos 1);
  wait_status = λ s. pos 0;
  exec_context = λ ctx s. ctx;
  payload_size = 0x8000;
}

abbrev read_call : Context
read_call = record { r0 = 3; r1 = 0x40000100; r2 = 64; r3 = 0; r7 = 7; lr = 0 }

svc_handler-wraps_example :
    ((n : ℕ) × (n < 2 ^ 32)
      × (user_space_end < 0x400FFFE0 + n * process_info_size)
      × ((svc_handler sevens (record read_call { r0 = 0x400FFFE0; r1 = n; r7 = 4 }) 0).calls
          ≡ get_tasks 0x400FFFE0 n ∷ []))
    × ((n : ℕ) × (n < 2 ^ 32)
        × (user_space_end < 0x400FFFE0 + n * dev_info_size)
        × ((svc_handler sevens (record read_call { r0 = 0x400FFFE0; r1 = n; r7 = 19 }) 0).calls
            ≡ list_devices 0x400FFFE0 n ∷ []))
    × ((n : ℕ) × (n < 2 ^ 32)
        × (user_space_end < 0x400FFFE0 + n * file_info_size)
        × ((svc_handler sevens
              (record read_call { r0 = 0x40000000; r1 = 0x400FFFE0; r2 = n; r7 = 9 })
              0).calls
            ≡ list_dir 0x40000000 0x400FFFE0 n ∷ []))
svc_handler-wraps_example =
    svc_handler-wraps sevens read_call 0 0x400FFFE0 0x40000000 (omega arith, omega arith)
      (omega arith, omega arith)

svc_handler-AllConfined_example : AllConfined (svc_handler sevens read_call 0).calls
svc_handler-AllConfined_example =
    svc_handler-AllConfined sevens read_call 0
      (record { word0 = omega arith; word1 = omega arith; word2 = omega arith }) tt (omega arith)

-- A buffer that ends behind user space is refused with E_PTR, and nothing is called.
refused_run :
    let r = svc_handler sevens (record read_call { r2 = 0x100000 }) 0 in
    ◌≡◌ {A = ℕ × List Call} (r.ctx.r0, r.calls) (0xFFFFFFFC, [])
unfolding svc_handler dispatch_call handle sys_read_file guarded call refuse_call
    validate_user_pointer to_register error_code
refused_run = refl
