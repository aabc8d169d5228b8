-- ===== src/Tests/Interning.antt =====
-- Tests of the interned types.
use ia2_phase.Base.{◌≡◌, ◌↔◌, arith}
use Prim.Native.String.{String}
use ia2_phase.Types.Interner.{empty, empty-IsInterner, intern_twice}
use ia2_phase.Types.{intern_from_strings}

abbrev int : String
int = "int"

abbrev long : String
long = "long"

intern_twice_example :
    let r = intern_from_strings int "int" empty in
    let r' = intern_from_strings long "time_t" r.0 in
    ((int ≡ long) ↔ (r.1 ≡ r'.1)) × (int ≡ long → r'.0 ≡ r.0)
unfolding empty
intern_twice_example = intern_twice int long "int" "time_t" empty empty-IsInterner (omega arith)
