-- ===== src/Tests/Bng.antt =====
-- otherlibs/num/bng.c at fixed inputs.
use ocaml_pro_ocaml_branch.Base.{
  ℕ, ◌+◌, ◌-◌, ◌*◌, ◌/◌, ◌%◌, ◌^◌, ◌<◌, ◌≤◌, ◌≡◌, refl, arith, List, [], ◌∷◌,
}
use ocaml_pro_ocaml_branch.Bng.Digit.{base, mult, add2_carry}
use ocaml_pro_ocaml_branch.Bng.Digit.Exact.{mult_lem}
use ocaml_pro_ocaml_branch.Bng.Value.{value, IsDigits}
use ocaml_pro_ocaml_branch.Bng.AddSub.{outcome, increment, add_carry, add, sub}
use ocaml_pro_ocaml_branch.Bng.AddSub.Add.{IsSum, add-IsSum}
use ocaml_pro_ocaml_branch.Bng.AddSub.Sub.{IsDifference, sub-IsDifference}
use ocaml_pro_ocaml_branch.Bng.Shift.{
  shift_left, shift_right, IsShiftedLeft, shift_left-IsShiftedLeft, shift_right_lem,
}
use ocaml_pro_ocaml_branch.Bng.Mult.{mult_sub_digit, mult_add}
use ocaml_pro_ocaml_branch.Bng.Mult.AddDigit.{IsTotal}
use ocaml_pro_ocaml_branch.Bng.Mult.SubDigit.{IsTaken, mult_sub_digit-IsTaken}
use ocaml_pro_ocaml_branch.Bng.Mult.Product.{mult_add-IsTotal}
use ocaml_pro_ocaml_branch.Bng.Compare.{compare}
use ocaml_pro_ocaml_branch.Bng.Compare.Order.{three_way, compare-three_way}

abbrev top : ℕ
top = base - 1

-- Three digits, the first two the largest there are; and one digit.
abbrev large : List ℕ
large = top ∷ top ∷ 1 ∷ []

abbrev single : List ℕ
single = top ∷ []

large-IsDigits : IsDigits large
large-IsDigits = omega arith

single-IsDigits : IsDigits single
single-IsDigits = omega arith

-- The carry runs through two digits and stops in the third.
carry_runs : add large (1 ∷ []) 0 ≡ outcome 0 (0 ∷ 0 ∷ 2 ∷ [])
unfolding add add_carry increment add2_carry
carry_runs = refl

add-IsSum_example : IsSum large (value large + value single + 1) (add large single 1)
add-IsSum_example =
    add-IsSum large single 1 large-IsDigits single-IsDigits (omega arith) (omega arith)

sub-IsDifference_example : IsDifference large (value single + 1) (sub large single 1)
sub-IsDifference_example =
    sub-IsDifference large single 1 large-IsDigits single-IsDigits (omega arith) (omega arith)

shift_left-IsShiftedLeft_example : IsShiftedLeft large 5 (value large * 2 ^ 5) (shift_left large 5)
shift_left-IsShiftedLeft_example = shift_left-IsShiftedLeft large 5 large-IsDigits (omega arith)

shift_right_lem_example :
    (value (shift_right large 5).digits ≡ value large / 2 ^ 5)
    × ((shift_right large 5).carry ≡ value large % 2 ^ 5 * 2 ^ (64 - 5))
shift_right_lem_example = shift_right_lem large 5 large-IsDigits (omega arith)

mult_lem_example :
    ((mult top top).res + base * (mult top top).carry ≡ top * top)
    × ((mult top top).res < base)
    × ((mult top top).carry + 1 < base)
mult_lem_example = mult_lem top top (omega arith) (omega arith)

mult_sub_digit-IsTaken_example :
    IsTaken large (value single * top) (mult_sub_digit large single top)
mult_sub_digit-IsTaken_example =
    mult_sub_digit-IsTaken large single top large-IsDigits single-IsDigits (omega arith)
      (omega arith)

mult_add-IsTotal_example :
    IsTotal large (value large + value single * value single) (mult_add large single single)
    × ((mult_add large single single).carry ≤ 1)
mult_add-IsTotal_example =
    mult_add-IsTotal large single single large-IsDigits single-IsDigits single-IsDigits
      (omega arith)

compare-three_way_example : compare large single ≡ three_way (value large) (value single)
compare-three_way_example = compare-three_way large single large-IsDigits single-IsDigits
