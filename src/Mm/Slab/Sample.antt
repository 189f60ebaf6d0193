-- ===== src/Mm/Slab/Sample.antt =====
-- A pool with its first page in use, for runs of the models of slab.c and vmm.c.
use vinix_os.Base.{refl, some, arith}
use vinix_os.Mm.Word.{test_bit}
use vinix_os.Mm.PageAlloc.{Pool, page_alloc_init, claim, all_zero, bit_get}
use vinix_os.Mm.PageAlloc.Count.{IsValid, page_alloc_init-IsValid}
use vinix_os.Mm.PageAlloc.Alloc.{Granted, claim-Granted}

abbrev pub first_used : Pool
first_used = (claim page_alloc_init 1 (some 0)).1

first_grant : Granted 0 page_alloc_init 0x81000000 first_used
unfolding claim all_zero bit_get test_bit page_alloc_init
first_grant =
    claim-Granted 0 (omega arith) page_alloc_init-IsValid.0
      (record { zero_run = refl; inside = omega arith; steps = 0; aligned = refl })

pub first_used-IsValid : IsValid first_used
first_used-IsValid = first_grant.valid
