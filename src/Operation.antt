-- ===== src/Operation.antt =====
-- operatio.h: class operation, what the program is asked to do. operation_set is a record.
use advancescan.Base.{Bool, ◌&&◌}

pub record Operation : Type 0 where
  pub flag_active : Bool
  pub flag_output : Bool
  pub flag_move : Bool
  pub flag_add : Bool
  pub flag_fix : Bool
  pub flag_remove_binary : Bool
  pub flag_remove_text : Bool
  pub flag_remove_garbage : Bool

abbrev pub active_add : Operation → Bool
active_add o = o.flag_active && o.flag_add

abbrev pub active_fix : Operation → Bool
active_fix o = o.flag_active && o.flag_fix

abbrev pub active_remove_binary : Operation → Bool
active_remove_binary o = o.flag_active && o.flag_remove_binary

abbrev pub active_remove_text : Operation → Bool
active_remove_text o = o.flag_active && o.flag_remove_text

abbrev pub active_move : Operation → Bool
active_move o = o.flag_active && o.flag_move

abbrev pub active_remove_garbage : Operation → Bool
active_remove_garbage o = o.flag_active && o.flag_remove_garbage

abbrev pub output_fix : Operation → Bool
output_fix o = o.flag_output && o.flag_fix
