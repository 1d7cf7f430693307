-- ===== src/Strings/Tests.antt =====
-- strings.c at concrete arrays.
use chibicc.Common.{◌≡◌, refl, arith, none, some, ◌∷◌, replicate, ◌++◌}
use chibicc.Strings.{StringArray, strarray_push}
use chibicc.Strings.Push.{IsValid, Pushed, strarray_push-Pushed}

-- Eight strings fill the first allocation.
abbrev full : StringArray
full = record { array = some (replicate 8 (some 3)); capacity = 8; len = 8 }

abbrev doubled : StringArray
doubled = record {
  array = some (replicate 8 (some 3) ++ (some 4 ∷ replicate 7 none));
  capacity = 16;
  len = 9;
}

push-full : strarray_push full 4 ≡ some doubled
unfolding strarray_push
push-full = refl

full-IsValid : IsValid full
full-IsValid = (refl, omega arith, omega arith)

strarray_push-Pushed_example : Pushed full 4 (strarray_push full 4)
strarray_push-Pushed_example = strarray_push-Pushed full 4 full-IsValid
