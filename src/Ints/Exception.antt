-- ===== src/Ints/Exception.antt =====
-- What a primitive returns, or the OCaml exception that it raises.

-- caml_failwith("int_of_string"), caml_raise_zero_divide() and a loop that does not end.
pub data Exception : Type 0 where
  int_of_string zero_divide diverges : Exception

pub data Result {ℓ} (A : Type ℓ) : Type ℓ where
  ok : A → Result A
  raise : Exception → Result A
