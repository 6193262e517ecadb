-- ===== src/Core/Probe/Tests.antt =====
-- An app that is ready at the third attempt.
use bugpot.Base.{
  ℕ, suc, ◌≡◌, ◌≤◌, ◌+◌, ◌*◌, refl, arith, some, ok, err, Result, ◌==◌, if◌then◌else◌,
}
use bugpot.Base.Text.{Str, codes}
use bugpot.Core.Probe.{readiness_poll, wait_for_ready, wait_for_ready-finds, parse_http_status_code}

abbrev clock : ℕ → ℕ
clock n = 5 + n * 100000000

abbrev third : ℕ → Result (Unit {0}) Str
third n = if n == 2 then ok tt else err (codes "refused")

poll_apart : (n : ℕ) → clock n + readiness_poll ≤ clock (suc n)
poll_apart n = omega arith

wait_for_ready-finds_example : wait_for_ready clock third 5 100 10000000000 ≡ some (ok tt)
wait_for_ready-finds_example =
    wait_for_ready-finds clock third poll_apart 5 10000000000 100 2 (omega arith) (omega arith) refl

status_of_reply : parse_http_status_code (codes "HTTP/1.1 200 OK") ≡ some 200
unfolding parse_http_status_code
status_of_reply = refl
