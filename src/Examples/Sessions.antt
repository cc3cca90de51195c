-- ===== src/Examples/Sessions.antt =====
-- Concrete runs of the theorems on the OWA session: a server whose logins fail twice and then work,
-- and which refuses the first session.
use outlook_agent.Prelude.{[], arith, err, if◌then◌else◌, ltb, none, ok, refl, suc, true, ℕ, ◌≡◌}
use outlook_agent.Value.{end}
use outlook_agent.Owa.{Host, LoginError, State, is_auth_failure}
use outlook_agent.Owa.Session.{login, login_with_retry, tried}
use outlook_agent.Owa.Service.{execute, execute_once, raw_answer}
use outlook_agent.Owa.Attempts.{Within, execute-Within}
use outlook_agent.Owa.Retries.{
  Fails, IsRenewed, execute-IsRenewed, login_with_retry-Fails, never, once_more,
}

abbrev unavailable : LoginError
unavailable = record { message = "owa login returned HTTP 503"; transient = true }

-- the world counts the calls
abbrev flaky : Host
flaky = record {
  World = ℕ;
  Password = Unit;
  Session = ℕ;
  now = λ n. (n, n);
  get_secret = λ n. (ok tt, n);
  log_in = λ p n. (if ltb n 2 then err unavailable else ok n, suc n);
  back_off = λ d n. (none, n);
  send = λ session n. (
    ok (record {
      status = if ltb n 5 then 401 else 200;
      content_type = "application/json";
      path = none;
      body = "{}";
    }),
    suc n,
  );
  decode = λ s. ok end;
  envelope = λ reply. end;
  decimal = λ n. "401";
  login_retries = 2;
  session_ttl = 0;
}

abbrev started : State flaky
started = record { world = 0; session = none; logins = 0; sent = [] }

Fails-twice : Fails flaky tt 0 2 started.world 2
Fails-twice =
    once_more {w₁ = 1} unavailable refl refl refl
      (once_more {w₁ = 2} unavailable refl refl refl never)

login_with_retry-Fails_example :
    login_with_retry flaky tt started ≡ (ok 2, record started { world = 3; logins = 3 })
login_with_retry-Fails_example =
    login_with_retry-Fails flaky tt 2 2 2 3 started Fails-twice (omega arith) refl

execute-Within_example : Within flaky 6 2 started (execute flaky (raw_answer flaky) started).1
execute-Within_example = execute-Within flaky (raw_answer flaky) started

is_refused : (execute_once flaky (raw_answer flaky) started).0.1 ≡ true
unfolding execute_once raw_answer is_auth_failure login login_with_retry tried
is_refused = refl

execute-IsRenewed_example :
    IsRenewed flaky
      (raw_answer flaky)
      (execute_once flaky (raw_answer flaky) started).1
      (execute flaky (raw_answer flaky) started)
execute-IsRenewed_example = execute-IsRenewed flaky (raw_answer flaky) started is_refused
