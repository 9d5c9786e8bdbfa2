-- ===== src/Macros.antt =====
-- inc/yardstick/yardstick.h: the functions that the library exports, and the macros over them, in a
-- build with the library and in one with `NO_YS`.
-- An argument of a macro is an expression, which may change the state of the program.
use yardstick.Base.{ℕ, Bool, true, false}
use yardstick.Api.{YsResult, success}
use yardstick.Api
use yardstick.Support.{ys_ignore}

-- The exported functions. A pointer to a string is its address, a double its 64 bits.
pub record Library {ℓ} (S : Type ℓ) : Type ℓ where
  pub initialize : (allocator : ℕ) → S → YsResult × S
  pub shutdown : S → YsResult × S
  pub tick : S → YsResult × S
  pub listen_web : (port : ℕ) → S → YsResult × S
  pub emit_record : (when value name file line : ℕ) → S → YsResult × S
  pub emit_count : (amount name : ℕ) → S → YsResult × S
  pub emit_region : (start_time end_time name file line : ℕ) → S → YsResult × S
  pub read_clock : S → ℕ × S

-- Whether `NO_YS` is defined.
pub data Build : Type 0 where
  with_library no_ys : Build

-- `ysEnabled`
unfoldable pub ys_enabled : Build → YsResult
ys_enabled with_library = success
ys_enabled no_ys = Api.disabled

module _ {ℓ} {S : Type ℓ} (lib : Library S) where
  -- `ysInitialize`
  unfoldable pub ys_initialize : Build → (S → ℕ × S) → S → YsResult × S
  ys_initialize with_library config s =
      let (allocator, s') = config s in lib.initialize allocator s'
  ys_initialize no_ys config s = (Api.disabled, ys_ignore config s)

  -- `ysShutdown`
  unfoldable pub ys_shutdown : Build → S → YsResult × S
  ys_shutdown with_library s = lib.shutdown s
  ys_shutdown no_ys s = (Api.disabled, s)

  -- `ysTick`
  unfoldable pub ys_tick : Build → S → YsResult × S
  ys_tick with_library s = lib.tick s
  ys_tick no_ys s = (Api.disabled, s)

  -- `ysListenWeb`
  unfoldable pub ys_listen_web : Build → (S → ℕ × S) → S → YsResult × S
  ys_listen_web with_library port s = let (p, s') = port s in lib.listen_web p s'
  ys_listen_web no_ys port s = (Api.disabled, ys_ignore port s)

  -- `ysCounterSet`. Which of its two calls comes first, that of the clock or that of the value, is
  -- left to the compiler.
  unfoldable pub ys_counter_set :
      Build → (clock_first : Bool) → (name file line : ℕ) → (S → ℕ × S) → S → YsResult × S
  ys_counter_set with_library true name file line value s =
      let (now, s1) = lib.read_clock s in
      let (v, s2) = value s1 in lib.emit_record now v name file line s2
  ys_counter_set with_library false name file line value s =
      let (v, s1) = value s in
      let (now, s2) = lib.read_clock s1 in lib.emit_record now v name file line s2
  ys_counter_set no_ys clock_first name file line value s = (Api.disabled, ys_ignore value s)

  -- `ysCounterAdd`
  unfoldable pub ys_counter_add : Build → (name : ℕ) → (S → ℕ × S) → S → YsResult × S
  ys_counter_add with_library name amount s = let (a, s') = amount s in lib.emit_count a name s'
  ys_counter_add no_ys name amount s = (Api.disabled, ys_ignore amount s)

  -- `ysProfile`, with the rest of its scope: `ScopedRegion` reads the clock when it is constructed,
  -- and its destructor reads it again and emits the region.
  unfoldable pub ys_profile {κ} :
      {B : Type κ} → Build → (name file line : ℕ) → (S → B × S) → S → B × S
  ys_profile with_library name file line scope s =
      let (start_time, s1) = lib.read_clock s in
      let (b, s2) = scope s1 in
      let (end_time, s3) = lib.read_clock s2 in
      let (r, s4) = lib.emit_region start_time end_time name file line s3 in (b, s4)
  ys_profile no_ys name file line scope s = scope s
