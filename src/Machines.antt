-- ===== src/Machines.antt =====
-- src/libs/utils/llsf/machines.{h,cpp}: names and numbers of the machines on the field. An
-- `else if` chain on names and a `switch` on numbers are tables that are searched from the top.
pub mod Names
mod Examples
use at_work_central_factory.Common.{ℕ, String, List, [], ◌∷◌, Result, or_throw}
use at_work_central_factory.Common.Dict.{Dict, string_key, nat_key, find}

-- `assignment_other` is any other value of the `int` behind the enum.
pub data MachineAssignment : Type 0 where
  assignment_2013 assignment_2014 assignment_other : MachineAssignment

pub data MachineError : Type 0 where
  unknown_machine_type : String → MachineError
  unknown_machine_number : ℕ → MachineError
  unknown_assignment : MachineError

abbrev pub machines_2013 : Dict String ℕ
machines_2013 =
    ("M1", 0)
    ∷ ("M2", 1)
    ∷ ("M3", 2)
    ∷ ("M4", 3)
    ∷ ("M5", 4)
    ∷ ("M6", 5)
    ∷ ("M7", 6)
    ∷ ("M8", 7)
    ∷ ("M9", 8)
    ∷ ("M10", 9)
    ∷ ("D1", 10)
    ∷ ("D2", 11)
    ∷ ("D3", 12)
    ∷ ("TST", 13)
    ∷ ("R1", 14)
    ∷ ("R2", 15)
    ∷ []

abbrev pub machines_2014 : Dict String ℕ
machines_2014 =
    ("M1", 0)
    ∷ ("M2", 1)
    ∷ ("M3", 2)
    ∷ ("M4", 3)
    ∷ ("M5", 4)
    ∷ ("M6", 5)
    ∷ ("M7", 6)
    ∷ ("M8", 7)
    ∷ ("M9", 8)
    ∷ ("M10", 9)
    ∷ ("M11", 10)
    ∷ ("M12", 11)
    ∷ ("D1", 12)
    ∷ ("D2", 13)
    ∷ ("D3", 14)
    ∷ ("R1", 15)
    ∷ ("M13", 16)
    ∷ ("M14", 17)
    ∷ ("M15", 18)
    ∷ ("M16", 19)
    ∷ ("M17", 20)
    ∷ ("M18", 21)
    ∷ ("M19", 22)
    ∷ ("M20", 23)
    ∷ ("M21", 24)
    ∷ ("M22", 25)
    ∷ ("M23", 26)
    ∷ ("M24", 27)
    ∷ ("D4", 28)
    ∷ ("D5", 29)
    ∷ ("D6", 30)
    ∷ ("R2", 31)
    ∷ []

abbrev pub names_2013 : Dict ℕ String
names_2013 =
    (0, "M1")
    ∷ (1, "M2")
    ∷ (2, "M3")
    ∷ (3, "M4")
    ∷ (4, "M5")
    ∷ (5, "M6")
    ∷ (6, "M7")
    ∷ (7, "M8")
    ∷ (8, "M9")
    ∷ (9, "M10")
    ∷ (10, "D1")
    ∷ (11, "D2")
    ∷ (12, "D3")
    ∷ (13, "TST")
    ∷ (14, "R1")
    ∷ (15, "R2")
    ∷ []

abbrev pub names_2014 : Dict ℕ String
names_2014 =
    (0, "M1")
    ∷ (1, "M2")
    ∷ (2, "M3")
    ∷ (3, "M4")
    ∷ (4, "M5")
    ∷ (5, "M6")
    ∷ (6, "M7")
    ∷ (7, "M8")
    ∷ (8, "M9")
    ∷ (9, "M10")
    ∷ (10, "M11")
    ∷ (11, "M12")
    ∷ (12, "D1")
    ∷ (13, "D2")
    ∷ (14, "D3")
    ∷ (15, "R1")
    ∷ (16, "M13")
    ∷ (17, "M14")
    ∷ (18, "M15")
    ∷ (19, "M16")
    ∷ (20, "M17")
    ∷ (21, "M18")
    ∷ (22, "M19")
    ∷ (23, "M20")
    ∷ (24, "M21")
    ∷ (25, "M22")
    ∷ (26, "M23")
    ∷ (27, "M24")
    ∷ (28, "D4")
    ∷ (29, "D5")
    ∷ (30, "D6")
    ∷ (31, "R2")
    ∷ []

unfoldable pub to_machine : String → MachineAssignment → Result MachineError ℕ
to_machine name assignment_2013 = or_throw (find name machines_2013) (unknown_machine_type name)
to_machine name assignment_2014 = or_throw (find name machines_2014) (unknown_machine_type name)
to_machine name assignment_other = Result.err unknown_assignment

unfoldable pub to_string : ℕ → MachineAssignment → Result MachineError String
to_string machine assignment_2013 =
    or_throw (find machine names_2013) (unknown_machine_number machine)
to_string machine assignment_2014 =
    or_throw (find machine names_2014) (unknown_machine_number machine)
to_string machine assignment_other = Result.err unknown_assignment
