-- ===== src/Machines/Examples.antt =====
-- The names of machines at concrete numbers.
use at_work_central_factory.Common.{◌≡◌, ◌↔◌, refl, ok}
use at_work_central_factory.Machines.{assignment_2013, assignment_2014, to_machine, to_string}
use at_work_central_factory.Machines.Names.{to_machine-to_string}

test_station : to_string 13 assignment_2013 ≡ ok "TST"
unfolding to_string
test_station = refl

to_machine-to_string_example :
    (to_machine "D1" assignment_2014 ≡ ok 12) ↔ (to_string 12 assignment_2014 ≡ ok "D1")
to_machine-to_string_example = to_machine-to_string assignment_2014 "D1" 12
