-- ===== src/Examples/Values.antt =====
-- Values and edge ids.
use graphlabapi_graphlab.Prelude.{
  ℕ, ◌+◌, ◌-◌, ◌%◌, ◌<◌, ◌^◌, ◌≡◌, refl, true, false, Option, none, some, List, [], ◌∷◌, arith,
}
use graphlabapi_graphlab.Prelude.Run.{ok, fault}
use graphlabapi_graphlab.Eid.{
  make_eid, split_eid, split_eid-make_eid, int_type, string_type, double_type, vid_type, blob_type,
}
use graphlabapi_graphlab.Value.{Value, word, buffer, assign}
use graphlabapi_graphlab.Value.Laws.{IsValid}
use graphlabapi_graphlab.Value.Typed.{Scalars, set_val, diff}
use graphlabapi_graphlab.Value.Transfer.{make, assign_scalar_to_text}
use graphlabapi_graphlab.Value.SetVal.{diff_delta}

abbrev pub five : Value
five = make (word 5) 8 int_type false

abbrev pub twelve : Value
twelve = make (word 12) 8 int_type false

abbrev pub hello : Value
hello = make (buffer (104 ∷ 105 ∷ [])) 2 string_type false

abbrev pub nothing : Value
nothing = make (word 0) 0 string_type true

pub five-IsValid : IsValid five
five-IsValid = (omega arith, refl)

pub twelve-IsValid : IsValid twelve
twelve-IsValid = (omega arith, refl)

pub hello-IsValid : IsValid hello
hello-IsValid = (refl, omega arith)

pub nothing-IsValid : IsValid nothing
nothing-IsValid = (refl, refl)

-- Numbers for doubles, and texts of one digit.
abbrev digit : List ℕ → Option ℕ
digit [] = none
digit (c ∷ text) = some (c - 48)

abbrev scalars : Scalars
scalars = record {
  add_double = λ x y. (x + y) % 2 ^ 64;
  sub_double = λ x y. (x + 2 ^ 64 - y) % 2 ^ 64;
  parse_int = digit;
  parse_double = digit;
  parse_vid = digit;
}

split_eid-make_eid_example :
    (make_eid 51966 3 8 < 2 ^ 64) × (split_eid (make_eid 51966 3 8) ≡ (3, 8))
split_eid-make_eid_example = split_eid-make_eid 51966 3 8 (omega arith) (omega arith)

assign_scalar_to_text_example : assign five hello ≡ fault
unfolding graphlabapi_graphlab.Eid.is_scalar_graph_datatype
assign_scalar_to_text_example =
    assign_scalar_to_text five hello 5 hello-IsValid refl refl (omega arith)

diff_delta_example :
    (d : Value) × (w : Value) × (diff scalars five twelve nothing ≡ ok d)
    × (set_val scalars twelve d true ≡ ok (w, true))
    × IsValid w
    × (w.type ≡ int_type)
    × (w.payload ≡ word 5)
diff_delta_example = diff_delta scalars five twelve nothing five-IsValid twelve-IsValid refl refl
