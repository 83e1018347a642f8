-- ===== src/Connection/World/Failing.antt =====
-- The results that wait in the request map of connection::impl for the end of a send.
use common.Base.{ℕ, ◌≡◌, List, [], ◌∷◌, Option, none, some, Bool, true, arith}
use common.Base.Assoc.{find, erase, modify, emplace}
use common.Results.{RequestResult, is_request_fail}
use common.Timer.Multiple.{MultipleTimer}
use common.Timer.Multiple
use common.Connection.Handlers.{RequestData, abort_requests, mark_sent}

abbrev pub is_failing : Option RequestResult → Bool
is_failing none = true
is_failing (some r) = is_request_fail r

-- The result of each entry, where it has one, is a failure.
abbrev pub Failing : List (ℕ × RequestData) → Type 0
Failing [] = Unit {0}
Failing ((number, d) ∷ m) = (is_failing d.fail_req_result ≡ true) × Failing m

pub erase-Failing : (number : ℕ) (m : List (ℕ × RequestData)) → Failing m → Failing (erase number m)
unfolding erase
erase-Failing number [] f = f
erase-Failing number ((j, d) ∷ m) f = ground (arith, f.0, erase-Failing number m f.1)

pub mark_sent-Failing :
    (number : ℕ) (m : List (ℕ × RequestData)) → Failing m → Failing (modify number mark_sent m)
unfolding modify
mark_sent-Failing number [] f = f
mark_sent-Failing number ((j, d) ∷ m) f = ground (arith, f.0, mark_sent-Failing number m f.1)

pub emplace-Failing :
    (number : ℕ) (d : RequestData) (m : List (ℕ × RequestData))
    → d.fail_req_result ≡ none
    → Failing m
    → Failing (emplace number d m)
unfolding emplace
emplace-Failing number d m h f = ground (arith, h, f)

pub abort_requests-Failing :
    (r : RequestResult) (m : List (ℕ × RequestData)) (timers : MultipleTimer ℕ)
    → is_request_fail r ≡ true
    → Failing m
    → Failing (abort_requests r m timers).0
unfolding abort_requests
abort_requests-Failing r [] timers h f = f
abort_requests-Failing r ((j, d) ∷ m) timers h f =
    ground (arith, h, abort_requests-Failing r m (Multiple.cancel d.timer_id timers) h f.1)

pub find-Failing :
    (number : ℕ) (d : RequestData) (m : List (ℕ × RequestData))
    → find number m ≡ some d
    → Failing m
    → is_failing d.fail_req_result ≡ true
unfolding find
find-Failing number d [] h f = cc
find-Failing number d ((j, e) ∷ m) h f = ground (arith, h, f.0, find-Failing number d m)
