-- ===== src/Store/Insert/Binding.antt =====
-- The placeholders of a chunk's statement name the arguments of the right reading.
use mathlib.Core.List.{append_assoc}
use mathlib.Core.Path.{ap₂}
use cryo_lab_telemetry.Prelude.{
  ℕ, suc, ◌+◌, ◌-◌, ◌*◌, ◌≡◌, refl, some, List, [], ◌∷◌, ◌++◌, arith, length, get_elem?,
  get_elem?-append, length-append,
}
use cryo_lab_telemetry.Store.Data.{Reading}
use cryo_lab_telemetry.Store.World.{
  Arg, text_arg, time_arg, float_arg, argument, both, bound_row, bound_rows,
}
use cryo_lab_telemetry.Store.Insert.{placeholders, arguments}

pub length-arguments : (rs : List Reading) → length (arguments rs) ≡ length rs * 4
unfolding arguments
length-arguments [] = refl
length-arguments (r ∷ rs) = omega (arith, length-arguments rs)

argument-append :
    (before after : List Arg) (n k : ℕ)
    → n ≡ length before + k + 1
    → argument (before ++ after) n ≡ get_elem? after k
unfolding argument
argument-append before after n k h =
    let e : n - 1 ≡ length before + k = omega arith in rw e (get_elem?-append before after k)

abbrev arguments_of : Reading → List Arg
arguments_of r = text_arg r.source ∷ text_arg r.metric ∷ time_arg r.ts ∷ float_arg r.value ∷ []

-- The tuple of the `i`-th reading, where the arguments of `i` readings come before its own.
bound_row-append :
    (before after : List Arg) (i : ℕ) (r : Reading)
    → length before ≡ i * 4
    → bound_row
        (before ++ (arguments_of r ++ after))
        (record { source = i * 4 + 1; metric = i * 4 + 2; ts = i * 4 + 3; value = i * 4 + 4 })
      ≡ some r
unfolding bound_row
bound_row-append before after i r h =
    let own = arguments_of r ++ after in
    rw (
      argument-append before own (i * 4 + 1) 0 (omega arith),
      argument-append before own (i * 4 + 2) 1 (omega arith),
      argument-append before own (i * 4 + 3) 2 (omega arith),
      argument-append before own (i * 4 + 4) 3 (omega arith),
    )

bound_rows_from :
    (before : List Arg) (i : ℕ) (rs : List Reading)
    → length before ≡ i * 4
    → bound_rows (before ++ arguments rs) (placeholders i rs) ≡ some rs
unfolding arguments placeholders bound_rows
bound_rows_from before i [] h = refl
bound_rows_from before i (r ∷ rs) h =
    let rest =
      bound_rows_from (before ++ arguments_of r) (suc i) rs
        (omega (arith, length-append before (arguments_of r))) in
    ap₂ both (bound_row-append before (arguments rs) i r h)
      (rw (append_assoc before (arguments_of r) (arguments rs)) at rest)

-- Bound to its arguments, the statement of a chunk inserts exactly the chunk, in order.
pub bound_rows_lem : (rs : List Reading) → bound_rows (arguments rs) (placeholders 0 rs) ≡ some rs
bound_rows_lem rs = bound_rows_from [] 0 rs refl
