-- ===== src/ConsoleAuth/Throttle.antt =====
-- src/console/auth.js: LoginThrottle, and the checks of a user's name and password.
use Prim.Native.Char.{code}
use ichibi_lake.Base.{
  ℕ, ◌+◌, ◌-◌, ◌/◌, String, Bool, true, ◌||◌, ◌&&◌, Option, none, some, List, [], ◌∷◌, ◌++◌, nat_eq,
  ltb, leb, length, filter, if◌then◌else◌,
}
use ichibi_lake.Base.Dict.{Dict, lookup, insert, erase}
use ichibi_lake.Base.Text.{is_letter, is_digit, code_units, text_length}

abbrev is_username_char : ℕ → Bool
is_username_char c = is_letter c || is_digit c || nat_eq c b'.' || nat_eq c b'@' || nat_eq c b'-'

unfoldable pub all_username : String → Bool
all_username String.[] = true
all_username (String.◌∷◌ c s) = is_username_char (code c) && all_username s

pub data Refusal : Type 0 where
  bad_username password_too_short password_too_long : Refusal

-- validateUsername; `none` is no text. USERNAME_RE is /^[A-Za-z0-9_.@-]{3,64}$/.
unfoldable pub validate_username : Option String → Option Refusal
unfolding all_username
validate_username none = some bad_username
validate_username (some name) =
    if all_username name && leb 3 (text_length name) && leb (text_length name) 64
    then none
    else some bad_username

-- validatePassword
unfoldable pub validate_password : Option String → Option Refusal
unfolding code_units
validate_password none = some password_too_short
validate_password (some password) =
    if ltb (code_units password) 10
    then some password_too_short
    else if ltb 256 (code_units password)
    then some password_too_long
    else none

-- `failures`: the times of the failures of each key.
abbrev pub Failures : Type 0
Failures = Dict (List ℕ)

abbrev pub or_none : Option (List ℕ) → List ℕ
or_none none = []
or_none (some times) = times

abbrev pub times_of : String → Failures → List ℕ
times_of key s = or_none (lookup key s)

unfoldable pub store_times : String → List ℕ → Failures → Failures
unfolding insert erase
store_times key [] s = erase key s
store_times key (t ∷ ts) s = insert key (t ∷ ts) s

module _ (max_failures window : ℕ) where
  -- t > now - windowMs
  abbrev pub is_live : ℕ → ℕ → Bool
  is_live now t = ltb now (t + window)

  -- _recent(key): the failures in the window, and `failures` after it.
  unfoldable pub recent : ℕ → String → Failures → List ℕ × Failures
  unfolding store_times lookup
  recent now key s =
      let times = filter (is_live now) (times_of key s) in (times, store_times key times s)

  -- Math.ceil((list[0] + windowMs - now) / 1000); maxFailures is positive, so that a full list
  -- has a first time.
  abbrev pub wait_of : ℕ → List ℕ → ℕ
  wait_of now [] = 0
  wait_of now (t ∷ ts) = (t + window - now + 999) / 1000

  abbrev pub longer : ℕ → ℕ → List ℕ → ℕ
  longer now wait times =
      if leb max_failures (length times)
      then (if ltb wait (wait_of now times) then wait_of now times else wait)
      else wait

  -- The loop of retryAfterSeconds, from the wait found so far.
  unfoldable pub longest_wait : ℕ → ℕ → List String → Failures → ℕ × Failures
  unfolding recent
  longest_wait now wait [] s = (wait, s)
  longest_wait now wait (key ∷ keys) s =
      let r = recent now key s in longest_wait now (longer now wait r.0) keys r.1

  unfoldable pub retry_after_seconds : ℕ → List String → Failures → ℕ × Failures
  unfolding longest_wait
  retry_after_seconds now keys s = longest_wait now 0 keys s

  unfoldable pub fail : ℕ → List String → Failures → Failures
  unfolding recent insert
  fail now [] s = s
  fail now (key ∷ keys) s =
      let r = recent now key s in fail now keys (insert key (r.0 ++ now ∷ []) r.1)

  unfoldable pub succeed : List String → Failures → Failures
  unfolding erase
  succeed [] s = s
  succeed (key ∷ keys) s = succeed keys (erase key s)

-- What the login does with the throttle.
pub data Attempt : Type 0 where
  asks fails succeeds : List String → Attempt

module _ (max_failures window : ℕ) where
  unfoldable pub apply : ℕ → Attempt → Failures → Failures
  unfolding retry_after_seconds fail succeed
  apply now (asks keys) s = (retry_after_seconds max_failures window now keys s).1
  apply now (fails keys) s = fail max_failures window now keys s
  apply now (succeeds keys) s = succeed max_failures window keys s

  -- Attempts, each with the time since the one before it; the last time, and `failures`.
  unfoldable pub run : ℕ → List (ℕ × Attempt) → Failures → ℕ × Failures
  unfolding apply
  run now [] s = (now, s)
  run now (a ∷ later) s = run (now + a.0) later (apply (now + a.0) a.1 s)
