-- ===== src/DataProvider/Decided.antt =====
-- What ends a call of `request` in indexer/src/dataProvider.js.
use pero_j.Base.{ℕ, ◌+◌, Bool, true, false, List, [], ◌∷◌, ◌++◌, ◌≡◌}
use pero_j.DataProvider.{FetchResult, Verdict, done, caught, try_fetch, request_from}

unfoldable pub is_retried : Verdict → Bool
is_retried (done r) = false
is_retried v = true

unfoldable pub count_of : Verdict → ℕ
count_of (caught e) = 1
count_of v = 0

-- The answers for which the handler runs: rate limits, timeouts and network failures.
unfoldable pub failures : List FetchResult → ℕ
failures [] = 0
failures (a ∷ answers) = count_of (try_fetch a) + failures answers

unfoldable pub AllRetried : List FetchResult → Type 0
AllRetried [] = Unit
AllRetried (a ∷ answers) = (is_retried (try_fetch a) ≡ true) × AllRetried answers

module _ (max : ℕ) (answers later : List FetchResult) where
  abbrev GoesOn : ℕ → Type 0
  GoesOn n = request_from max n (answers ++ later) ≡ request_from max (n + failures answers) later
