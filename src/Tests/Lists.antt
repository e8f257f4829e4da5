-- ===== src/Tests/Lists.antt =====
-- A run of calls on the doubly linked list, and the fields of a SCSI result.
use condy.Prelude.{◌≡◌, refl, true, false, List, [], ◌∷◌, ok, arith}
use condy.Prelude.Int.{pos}
use condy.Intrusive.Double.{DoubleLinkList}
use condy.Intrusive.Double.Run.{
  Call, pushes, pops, removes, pushed, popped, removed, run_calls, empty_list, Owns, run_calls-Owns,
}
use condy.Handlers.{
  WideCqe, device_status, driver_status, host_status, sense_len, resid_len, scsi_bsg_handler,
}
use condy.Handlers.Fields.{word, scsi_bsg_handler-fields}

abbrev some_calls : List Call
some_calls = pushes 8 ∷ pushes 16 ∷ pushes 24 ∷ removes 16 ∷ removes 16 ∷ pops ∷ []

run_calls-Owns_example :
    (l' : DoubleLinkList) × (run_calls some_calls empty_list
      ≡ ok (pushed ∷ pushed ∷ pushed ∷ removed true ∷ removed false ∷ popped 8 ∷ [], l'))
    × Owns l' (24 ∷ [])
run_calls-Owns_example = run_calls-Owns some_calls (
  (omega arith, refl),
  ((omega arith, refl), ((omega arith, refl), (omega arith, (omega arith, (tt, tt))))),
)

abbrev scsi_cqe : WideCqe
scsi_cqe = record { res = pos 0; flags = 0; big_cqe0 = word 2 8 1 18 4096; big_cqe1 = 0 }

scsi_bsg_handler-fields_example :
    (device_status (scsi_bsg_handler scsi_cqe).1 ≡ 2)
    × (driver_status (scsi_bsg_handler scsi_cqe).1 ≡ 8)
    × (host_status (scsi_bsg_handler scsi_cqe).1 ≡ 1)
    × (sense_len (scsi_bsg_handler scsi_cqe).1 ≡ 18)
    × (resid_len (scsi_bsg_handler scsi_cqe).1 ≡ 4096)
scsi_bsg_handler-fields_example =
    scsi_bsg_handler-fields scsi_cqe 2 8 1 18 4096 (omega arith) (omega arith) (omega arith)
      (omega arith) (omega arith) refl
