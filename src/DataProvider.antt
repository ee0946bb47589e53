-- ===== src/DataProvider.antt =====
-- The retry loop of `BaseDataProviderClient.request` in indexer/src/dataProvider.js. What `fetch`
-- gives each time is an argument, in order. A body that cannot be read, like any other exception, is
-- a network failure. Waiting times, headers and the token bucket leave no trace here.
pub mod Decided
mod Tests
use pero_j.Base.{
  ℕ, zero, suc, Bool, true, false, ◌&&◌, ◌||◌, List, [], ◌∷◌, ◌==◌, leb, if◌then◌else◌, Outcome,
  returned, thrown,
}

pub data FetchResult : Type 0 where
  responded : ℕ → FetchResult
  aborted network_failed : FetchResult

pub data ProviderError : Type 0 where
  authentication : ℕ → ProviderError
  rate_limit_exceeded timed_out network_failure : ProviderError
  answered : ℕ → ProviderError

-- `response.ok`
unfoldable pub is_ok : ℕ → Bool
is_ok status = leb 200 status && leb status 299

unfoldable pub is_server_error : ℕ → Bool
is_server_error status = leb 500 status && leb status 504

-- Whether the loop's body returns or throws; whether it ends in the handler, which counts the
-- attempt; or whether it ends without it.
pub data Verdict : Type 0 where
  done : Outcome ProviderError ℕ → Verdict
  caught : ProviderError → Verdict
  noted : ProviderError → Verdict

unfoldable pub try_response : ℕ → Verdict
try_response status =
    if is_ok status
    then done (returned status)
    else if (status == 401) || (status == 403)
    then done (thrown (authentication status))
    else if status == 429
    then caught rate_limit_exceeded
    else if is_server_error status
    then noted (answered status)
    else done (thrown (answered status))

unfoldable pub try_fetch : FetchResult → Verdict
try_fetch (responded status) = try_response status
try_fetch aborted = caught timed_out
try_fetch network_failed = caught network_failure

-- A call that has not ended waits for the next answer; `waiting` has its `attempt`.
pub data Progress : Type 0 where
  waiting : ℕ → Progress
  ended : Outcome ProviderError ℕ → Progress

unfoldable pub attempt_after : Verdict → ℕ → ℕ
attempt_after (done r) attempt = attempt
attempt_after (caught e) attempt = suc attempt
attempt_after (noted e) attempt = attempt

unfoldable pub after_try : ℕ → ℕ → Verdict → Progress → Progress
after_try max_retries attempt (done r) rest = ended r
after_try max_retries attempt (caught e) rest =
    if leb max_retries attempt then ended (thrown e) else rest
after_try max_retries attempt (noted e) rest = rest

unfoldable pub request_from : (max_retries attempt : ℕ) → List FetchResult → Progress
request_from max_retries attempt [] = waiting attempt
request_from max_retries attempt (a ∷ answers) =
    let rest = request_from max_retries (attempt_after (try_fetch a) attempt) answers in
    after_try max_retries attempt (try_fetch a) rest

unfoldable pub request : ℕ → List FetchResult → Progress
request max_retries answers = request_from max_retries 0 answers
