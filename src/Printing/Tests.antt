-- ===== src/Printing/Tests.antt =====
-- Names of src/MIR_new/Module.cc and src/MIR_new/IRprinter.cc.
use poly_cminus.Prelude.{some, none, ◌≡◌, refl}
use poly_cminus.ConstFold.{le}
use poly_cminus.Printing.{
  cmp, mul, select, instr_id2string, get_instr_op_name, print_cmp_type, print_fcmp_type,
}
use poly_cminus.Printing.Reading.{
  read, read-get_instr_op_name, read_cmp, comparisons, read_cmp-print,
}

cmp_example : get_instr_op_name cmp ≡ "icmp"
unfolding get_instr_op_name
cmp_example = refl

-- There is no entry of this kind, which prints its name itself.
select_example : get_instr_op_name select ≡ ""
unfolding get_instr_op_name
select_example = refl

read-get_instr_op_name_example : read instr_id2string (get_instr_op_name mul) ≡ some mul
read-get_instr_op_name_example = read-get_instr_op_name mul (λ e. cc) (λ e. cc)

read_cmp-print_example :
    (read_cmp print_cmp_type comparisons (print_cmp_type le) ≡ some le)
    × (read_cmp print_fcmp_type comparisons (print_fcmp_type le) ≡ some le)
    × (read_cmp print_cmp_type comparisons (print_fcmp_type le) ≡ none)
read_cmp-print_example = read_cmp-print le
