-- ===== src/Echo/Options.antt =====
-- src/Server.cc, `main`, and src/include/common/include/checktool.h, `RegexTool`: the options of the
-- second server. What regexec finds is an argument.
use c_s_online_library.Common.{
  ℕ, zero, suc, ◌≡◌, refl, Bool, true, false, ◌&&◌, Option, none, some, List, [], ◌∷◌, Bytes, codes,
  length, if◌then◌else◌, ◌==◌, leb, ℤ, pos, minus_one, int_eq, Bool-cases, inl, inr, arith,
}
use c_s_online_library.Dispatch.Startup.{to_port}
use c_s_online_library.Library.Path.{all_digits}
use c_s_online_library.Request.Defs.{atoi}

-- regexec: no match, an error, or its matches, with -1 for the start of a group that has none
pub data RegexResult : Type 0 where
  no_match regex_error : RegexResult
  matches : List (ℤ × ℤ) → RegexResult

abbrev found_groups : ℕ → List (ℤ × ℤ) → List (ℤ × ℤ)
found_groups zero ms = []
found_groups (suc n) [] = []
found_groups (suc n) (m ∷ ms) =
    let more = found_groups n ms in if int_eq m.0 minus_one then [] else m ∷ more

-- `check_str`, for up to DEFAULTSIZE matches; `none` is its assertion.
unfoldable pub check_str : RegexResult → Option (List (ℤ × ℤ))
check_str no_match = some []
check_str regex_error = none
check_str (matches ms) = some (found_groups 5 ms)

-- The opposite of the test on `tmp`: the first match is all of the text.
unfoldable pub is_whole : Bytes → List (ℤ × ℤ) → Bool
is_whole arg [] = false
is_whole arg (m ∷ ms) = int_eq m.0 (pos 0) && int_eq m.1 (pos (length arg))

-- What getopt returns, with `optarg`
pub data ServerOption : Type 0 where
  port_option ip_option : Bytes → ServerOption
  unknown_option : ServerOption

-- `ip`, the 16 bits of `port`, and `customize`
pub record Settings : Type 0 where
  pub ip : Bytes
  pub port : ℕ
  pub customize : Bool

-- An exit with a status, or `all_works` with these settings
pub data Launch : Type 0 where
  quits : ℤ → Launch
  works : Settings → Launch

-- "[0-9]*"
abbrev pub port_regex : Bytes
port_regex = codes "[0-9]*"

-- IPREGEX
abbrev pub ip_regex : Bytes
ip_regex =
    codes
      "^([0-9]|[1-9][0-9]|1[0-9]{1,2}|2[0-4][0-9]|25[0-5]).([0-9]|[1-9][0-9]|1[0-9]{1,2}|2[0-4][0-9]|25[0-5]).([0-9]|[1-9][0-9]|1[0-9]{1,2}|2[0-4][0-9]|25[0-5]).([0-9]|[1-9][0-9]|1[0-9]{1,2}|2[0-4][0-9]|25[0-5])$"

-- `ASSERT_MSG` exits with 1 where the text is not matched as a whole.
abbrev passes : Bytes → Option (List (ℤ × ℤ)) → Bool
passes arg none = false
passes arg (some ms) = is_whole arg ms

module _ (regexec : Bytes → Bytes → RegexResult) where
  -- The loop of `main` over its options
  unfoldable pub parse_options : List ServerOption → Settings → Launch
  parse_options [] s = works s
  parse_options (port_option arg ∷ os) s =
      let rest = parse_options os (record s { port = to_port (atoi arg); customize = true }) in
      if passes arg (check_str (regexec port_regex arg)) then rest else quits (pos 1)
  parse_options (ip_option arg ∷ os) s =
      let rest = parse_options os (record s { ip = arg; customize = true }) in
      if passes arg (check_str (regexec ip_regex arg)) then rest else quits (pos 1)
  parse_options (unknown_option ∷ os) s = quits minus_one

-- How many digits a text starts with
unfoldable pub leading_digits : Bytes → ℕ
leading_digits [] = 0
leading_digits (c ∷ cs) =
    let more = leading_digits cs in if leb c 57 && leb 48 c then suc more else 0

leading_digits-all : (arg : Bytes) → (leading_digits arg == length arg) ≡ all_digits arg
unfolding leading_digits all_digits
leading_digits-all [] = refl
leading_digits-all (c ∷ cs) = elim (Bool-cases (leb c 57 && leb 48 c)) [
  | inl digit ↦
      rw (digit, leading_digits)
        (elim (Bool-cases (leading_digits cs == length cs)) [
          | inl same ↦ ground (arith, digit, same, leading_digits-all cs)
          | inr other ↦ ground (arith, digit, other, leading_digits-all cs)
        ])
  | inr no_digit ↦ ground (arith, no_digit)
]

module _ (regexec : Bytes → Bytes → RegexResult) where
  -- With a regexec that finds the digits at the start of a text for "[0-9]*": the option for the port
  -- is taken exactly when its text has only digits, which the empty text has too, and else the server
  -- exits with 1.
  pub parse_options-port_option :
      (arg : Bytes) (os : List ServerOption) (s : Settings)
      → regexec port_regex arg ≡ matches ((pos 0, pos (leading_digits arg)) ∷ [])
      → parse_options regexec (port_option arg ∷ os) s ≡ (
          if all_digits arg
          then parse_options regexec os (record s { port = to_port (atoi arg); customize = true })
          else quits (pos 1))
  unfolding parse_options check_str is_whole int_eq
  parse_options-port_option arg os s found =
      let all = leading_digits-all arg in rw (found, parse_options) (rw (all, parse_options) refl)
