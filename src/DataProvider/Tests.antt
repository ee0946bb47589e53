-- ===== src/DataProvider/Tests.antt =====
-- Runs of the retry loop of indexer/src/dataProvider.js.
use pero_j.Base.{List, [], ◌∷◌, ◌≡◌, refl, returned, thrown}
use pero_j.DataProvider.{
  FetchResult, responded, aborted, timed_out, is_ok, is_server_error, try_response, try_fetch,
  waiting, ended, attempt_after, after_try, request_from, request,
}
use pero_j.DataProvider.Decided.{is_retried, count_of, failures, AllRetried}

program : Unit {0}
unfolding is_ok is_server_error try_response try_fetch attempt_after after_try request_from request
    is_retried count_of failures AllRetried
program = tt

abbrev unavailable : FetchResult
unavailable = responded 503

-- Six server errors with one retry allowed.
test_unavailable :
    request 1
      (unavailable ∷ unavailable ∷ unavailable ∷ unavailable ∷ unavailable ∷ unavailable ∷ [])
    ≡ waiting 0
unfolding program
test_unavailable = refl

test_timeouts : request 1 (aborted ∷ aborted ∷ []) ≡ ended (thrown timed_out)
unfolding program
test_timeouts = refl

test_recovers : request 1 (aborted ∷ unavailable ∷ responded 200 ∷ []) ≡ ended (returned 200)
unfolding program
test_recovers = refl

abbrev early : List FetchResult
early = unavailable ∷ aborted ∷ unavailable ∷ []
