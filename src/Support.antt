-- ===== src/Support.antt =====
-- inc/yardstick/yardstick.h: the version and the support code, as macros that the build's options
-- decide.
pub mod Linking
use yardstick.Base.{
  ℕ, ◌==◌, if◌then◌else◌, Bool, true, false, ◌&&◌, not, Option, none, some, List, [], ◌∷◌, ◌++◌,
}

-- `YS_VERSION_MAJOR`, `YS_VERSION_MINOR`, `YS_VERSION_PATCH` and `YS_VERSION` as the codes of their
-- characters, and `YS_VERSION_NUMERIC`.
abbrev pub version_major : List ℕ
version_major = 49 ∷ 54 ∷ []

abbrev pub version_minor : List ℕ
version_minor = 48 ∷ 50 ∷ []

abbrev pub version_patch : List ℕ
version_patch = 97 ∷ []

abbrev pub version_numeric : ℕ
version_numeric = 1442304

abbrev pub version : List ℕ
version = version_major ++ (46 ∷ []) ++ version_minor ++ version_patch

-- What is defined in a build: `_WIN32`, `YARDSTICK_STATIC`, `YARDSTICK_EXPORT`.
pub record Options : Type 0 where
  pub win32 : Bool
  pub yardstick_static : Bool
  pub yardstick_export : Bool

-- What `YS_API` stands for.
pub data Linkage : Type 0 where
  linkage_extern dllexport dllimport visibility_default : Linkage

unfoldable pub ys_api : Options → Linkage
ys_api o =
    if o.win32
    then (if o.yardstick_static
        then linkage_extern
        else if o.yardstick_export
        then dllexport
        else dllimport)
    else visibility_default

-- What `YS_CALL` and `YS_INLINE` stand for.
pub data Attribute : Type 0 where
  nothing fastcall forceinline always_inline : Attribute

unfoldable pub ys_call : Options → Attribute
ys_call o = if o.win32 then fastcall else nothing

unfoldable pub ys_inline : Options → Attribute
ys_inline o = if o.win32 then forceinline else always_inline

-- `YS_CAT` of two spellings.
abbrev pub ys_cat : List ℕ → List ℕ → List ℕ
ys_cat a b = a ++ b

-- `YS_IGNORE`: `sizeof` does not evaluate its operand.
unfoldable pub ys_ignore {ℓ κ} : {A : Type ℓ} {S : Type κ} → (S → A × S) → S → S
ys_ignore x s = s

-- `YS_ASSERT` where `NDEBUG` is not defined, on a message's address: `none` aborts.
unfoldable pub ys_assert {ℓ} : {S : Type ℓ} → (expr : Bool) → (msg : ℕ) → S → Option S
ys_assert expr msg s = if expr && not (msg == 0) then some s else none
