-- ===== src/Tests/Order.antt =====
-- The write pointer at concrete inputs.
use nvmevirt_fdp.Prelude.{◌≡◌, refl, arith, some, Returns}
use nvmevirt_fdp.Fdp.State.{WritePointer}
use nvmevirt_fdp.Fdp.Pointers.{next_page, line_end, advance_position}
use nvmevirt_fdp.Fdp.Pointers.Order.{rank, Advanced, advance_position-Advanced}
use nvmevirt_fdp.Fdp.Pointers.Visits.{
  run_position, start_of, run_position-visits, run_position-line_end,
}
use nvmevirt_fdp.Tests.Devices.{tiny, tiny-IsGeometry}

abbrev pointer : WritePointer
pointer = record { curline = 2; ch = 1; lun = 1; pg = 1; blk = 2; pl = 0 }

-- The last page of the first oneshot page: the next page is the first of the second one.
advance-pointer :
    advance_position tiny pointer ≡ some (next_page (record pointer { ch = 0; lun = 0; pg = 2 }))
unfolding advance_position
advance-pointer = refl

advance_position-Advanced_example : Returns (Advanced tiny pointer) (advance_position tiny pointer)
advance_position-Advanced_example =
    advance_position-Advanced tiny pointer tiny-IsGeometry (omega arith)

run_position-visits_example :
    run_position tiny (rank tiny 1 0 3) (start_of pointer)
    ≡ some (next_page (record pointer { ch = 1; lun = 0; pg = 3 }))
run_position-visits_example = run_position-visits tiny tiny-IsGeometry pointer 1 0 3 (omega arith)

run_position-line_end_example :
    run_position tiny 16 (start_of pointer) ≡ some (line_end (start_of pointer))
run_position-line_end_example = run_position-line_end tiny tiny-IsGeometry pointer
