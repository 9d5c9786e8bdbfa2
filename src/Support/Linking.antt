-- ===== src/Support/Linking.antt =====
-- inc/yardstick/yardstick.h: the options of a library and of the program that uses it.
use yardstick.Base.{ℕ, ◌+◌, ◌-◌, ◌*◌, ◌≡◌, refl, true, false, List, [], ◌∷◌, arith}
use yardstick.Support.{
  version_major, version_minor, version_numeric, Options, Linkage, dllexport, dllimport, ys_api,
  ys_call,
}

-- What a program has to see for what the library gives it.
abbrev pub counterpart : Linkage → Linkage
counterpart dllexport = dllimport
counterpart l = l

-- The number that decimal digits are read as, four bits for each of them.
unfoldable pub digits : List ℕ → ℕ → ℕ
digits [] n = n
digits (c ∷ cs) n = digits cs (n * 16 + (c - 48))

-- The number of the version has the digits of its major part and of its minor part.
version_numeric-digits : version_numeric ≡ digits version_minor (digits version_major 0) * 256
unfolding digits
version_numeric-digits = refl

-- A library that is built with YARDSTICK_EXPORT and a program that is not, which agree on the
-- platform and on YARDSTICK_STATIC, fit together, and call one another alike.
ys_api-counterpart :
    (library program : Options)
    → library.yardstick_export ≡ true
    → program.yardstick_export ≡ false
    → program.win32 ≡ library.win32
    → program.yardstick_static ≡ library.yardstick_static
    → (ys_api program ≡ counterpart (ys_api library)) × (ys_call program ≡ ys_call library)
unfolding ys_api ys_call
ys_api-counterpart library program e f w s = (ground arith, ground arith)
