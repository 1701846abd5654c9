-- ===== src/Model/Environments.antt =====
-- The two checks of a launch environment: `validate_environment` of crates/idk/src/protocol.rs, which
-- counts as it goes, and `LaunchEnvironment::from_variables` of crates/idk/src/project.rs, which counts
-- first. `usize` has 64 bits.
use idk.Common.{
  ℕ, ◌+◌, ◌≤◌, ◌≡◌, refl, [], ◌∷◌, Option, none, some, Bool, false, ◌&&◌, not, Text, text_Eq, utf8,
  is_absolute, every, any, ltb, leb, length, byte_len, Result, Check, ok, err, ensure, context,
  ◌>>◌, ◌>>=◌, try_fold, for_each, if◌then◌else◌, arith, codes, is_ok, is_control,
}
use idk.Common.Assoc.{lookup}
use idk.Model.{
  Environment, Refusal, environment_entries, environment_entry, environment_overflow,
  environment_size, no_home, relative_home,
}
use idk.Model.Fields.{absolute_path, bad_entry}

-- `usize::checked_add`
abbrev pub checked_add : ℕ → ℕ → Option ℕ
checked_add a b = if ltb (a + b) 18446744073709551616 then some (a + b) else none

abbrev pub and_then : Option ℕ → (ℕ → Option ℕ) → Option ℕ
and_then none f = none
and_then (some n) f = f n

-- `total + key.len() + value.len() + 2`, unless one of the sums overflows.
abbrev pub grown : ℕ → Text × Text → Option ℕ
grown total (key, value) =
    and_then (and_then (checked_add total (byte_len key)) (λ n. checked_add n (byte_len value)))
      (λ n. checked_add n 2)

abbrev pub max_environment : ℕ
max_environment = 262144

entry_step : ℕ → Text × Text → Result Refusal ℕ
entry_step total entry =
    ensure (not (bad_entry entry)) environment_entry
    >> context (grown total entry) environment_overflow
    >>= (λ total'. ensure (leb total' max_environment) environment_size >> ok total')

abbrev pub home : Text
home = codes "HOME"

pub validate_environment : Environment → Check Refusal
validate_environment env =
    ensure (leb (length env) 1024) environment_entries
    >> (try_fold 0 env entry_step >>= (λ _. ok tt))
    >> (context (lookup home env) no_home
        >>= (λ path. ensure (is_absolute (utf8 path)) relative_home))

abbrev try_total : ℕ → Environment → Option ℕ
try_total count [] = some count
try_total count (entry ∷ env) = and_then (grown count entry) (λ n. try_total n env)

pub from_variables : Environment → Result Refusal Environment
from_variables variables =
    ensure (leb (length variables) 1024) environment_entries
    >> (context (try_total 0 variables) environment_overflow
        >>= (λ total. ensure (leb total max_environment) environment_size))
    >> for_each variables (λ entry. ensure (not (bad_entry entry)) environment_entry)
    >> (context (lookup home variables) no_home >>= (λ path. absolute_path (utf8 path)))
    >> ok variables

-- The size of an environment, added up without bounds.
abbrev pub environment_bytes : Environment → ℕ
environment_bytes [] = 0
environment_bytes ((key, value) ∷ env) = byte_len key + byte_len value + 2 + environment_bytes env

-- The path that `HOME` names is absolute; it has no control character.
abbrev pub home_is : (Text → Bool) → Option Text → Bool
home_is test none = false
home_is test (some path) = test path

abbrev pub is_good : Text × Text → Bool
is_good entry = not (bad_entry entry)

entry_step-grows :
    (total : ℕ) (entry : Text × Text)
    → total ≤ max_environment
    → entry_step total entry ≡ (
        if not (is_good entry)
        then err environment_entry
        else if leb 18446744073709551616 (total + byte_len entry.0 + byte_len entry.1 + 2)
        then err environment_overflow
        else if leb (total + byte_len entry.0 + byte_len entry.1 + 2) max_environment
        then ok (total + byte_len entry.0 + byte_len entry.1 + 2)
        else err environment_size)
unfolding entry_step
entry_step-grows total (key, value) h = ground arith

loop-is_ok :
    (total : ℕ) (env : Environment)
    → total ≤ max_environment
    → is_ok (try_fold total env entry_step)
      ≡ every is_good env && leb (total + environment_bytes env) max_environment
loop-is_ok total [] h = ground arith
loop-is_ok total ((key, value) ∷ env) h =
    rw (entry_step-grows total (key, value) h)
      (ground (arith, loop-is_ok (total + byte_len key + byte_len value + 2) env))

-- `validate_environment` accepts exactly the environments of at most 1024 entries, all of them well
-- formed and of at most 256 KiB together, in which `HOME` is an absolute path.
pub validate_environment-is_ok :
    (env : Environment)
    → is_ok (validate_environment env)
      ≡ leb (length env) 1024
        && every is_good env
        && leb (environment_bytes env) max_environment
        && home_is (λ path. is_absolute (utf8 path)) (lookup home env)
unfolding validate_environment
validate_environment-is_ok env = ground (arith, loop-is_ok 0 env)

try_total-size :
    (count : ℕ) (env : Environment)
    → elim (try_total count env) [ none ↦ false | some total ↦ leb total max_environment ]
      ≡ leb (count + environment_bytes env) max_environment
try_total-size count [] = ground arith
try_total-size count ((key, value) ∷ env) =
    ground (arith, try_total-size (count + byte_len key + byte_len value + 2) env)

for_each-good :
    (env : Environment)
    → is_ok (for_each env (λ entry. ensure (is_good entry) environment_entry)) ≡ every is_good env
for_each-good [] = refl
for_each-good (entry ∷ env) = ground (arith, for_each-good env)

-- `LaunchEnvironment::from_variables` accepts an environment exactly when `validate_environment`
-- accepts it and its `HOME` has no control character.
pub from_variables-is_ok :
    (env : Environment)
    → is_ok (from_variables env)
      ≡ is_ok (validate_environment env)
        && home_is (λ path. not (any is_control path)) (lookup home env)
unfolding from_variables absolute_path
from_variables-is_ok env =
    rw (validate_environment-is_ok env) (ground (arith, try_total-size 0 env, for_each-good env))
