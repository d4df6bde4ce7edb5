-- ===== src/Server/Tests.antt =====
-- The login limiter on concrete calls.
use agentless_monitoring.Common.{
  ◌≤◌, ◌<◌, ◌≡◌, refl, ◌↔◌, List, [], ◌∷◌, Bytes, arith, true, length, bytes_discrete,
}
use agentless_monitoring.Common.Assoc.{lookup}
use agentless_monitoring.Server.Limiter.{
  Records, maximum_limiter_keys, source_login_window, source_login_attempts, account_login_window,
  account_login_attempts, new_login_limiter, allow_attempt, count_attempt,
}
use agentless_monitoring.Server.Limiter.Records.{count_recent, attempts_of}
use agentless_monitoring.Server.Limiter.Attempt.{HasRoom, allow_attempt_iff}
use agentless_monitoring.Server.Limiter.Window.{Event, attempt, success, InOrder}
use agentless_monitoring.Server.Limiter.History.{
  admitted, run, from_source, at_account, run-bounded, admitted-source_window,
  admitted-account_window,
}

abbrev same_text : Bytes → Bytes
same_text s = s

abbrev source : Bytes
source = 10 ∷ 1 ∷ []

abbrev user : Bytes
user = 97 ∷ []

abbrev seen_once : Records
seen_once = (source, record { attempts = 5 ∷ []; last_seen = 5 }) ∷ []

abbrev calls : List Event
calls =
    attempt 1 source user ∷ attempt 2 source user ∷ success source user ∷ attempt 3 source user ∷ []

abbrev calls_in_order : InOrder 0 calls
calls_in_order = (omega arith, (omega arith, (omega arith, tt)))

allow_attempt_iff_example :
    ((allow_attempt seen_once source 100 2 7).1 ≡ true)
    ↔ (HasRoom seen_once source 100 2 7 × (count_recent 100 7 (attempts_of source seen_once) < 2))
allow_attempt_iff_example = allow_attempt_iff seen_once source 100 2 7

-- The second attempt in the window passes, and with a limit of one it does not.
second_attempt : (allow_attempt seen_once source 100 2 7).1 ≡ true
unfolding allow_attempt count_attempt bytes_discrete lookup
second_attempt = refl

run-bounded_example :
    (length (run same_text same_text new_login_limiter calls).sources ≤ maximum_limiter_keys)
    × (length (run same_text same_text new_login_limiter calls).accounts ≤ maximum_limiter_keys)
run-bounded_example = run-bounded same_text same_text calls calls_in_order

admitted-source_window_example :
    count_recent source_login_window 9 (
      admitted same_text same_text
        (from_source same_text same_text source)
        new_login_limiter
        []
        calls)
    ≤ source_login_attempts
admitted-source_window_example =
    admitted-source_window same_text same_text source calls 9 calls_in_order (omega arith)

admitted-account_window_example :
    count_recent account_login_window 9 (
      admitted same_text same_text (at_account same_text same_text user) new_login_limiter [] calls)
    ≤ account_login_attempts
admitted-account_window_example =
    admitted-account_window same_text same_text user calls 9 calls_in_order (omega arith)
