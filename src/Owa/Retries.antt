-- ===== src/Owa/Retries.antt =====
-- What the retries of the OWA transport achieve: transient failures of Login are survived, and a
-- session that the server refuses is replaced.
use outlook_agent.Prelude.{
  Bool, Option, Result, String, ap, arith, err, false, inl, inr, none, ok, refl, some, suc, true,
  zero, ℕ, ◌*◌, ◌+◌, ◌∙◌, ◌≡◌, ◌≤◌, ◌⊎◌,
}
use outlook_agent.Server.{ActionResponse}
use outlook_agent.Owa.{Host, LoginError, Reply, State}
use outlook_agent.Owa.Session.{
  back_off_step, invalidate_session, keep_session, log_in_once, login, login_with_retry, resumed,
  tried, with_secret,
}
use outlook_agent.Owa.Service.{again, execute, execute_once, sent_with, first_of}

-- From one world to another, attempts to log in fail so many times, each with a transient error and
-- a wait that is not broken off. The first number counts the attempts before.
pub data Fails (h : Host) (password : h.Password) : ℕ → ℕ → h.World → h.World → Type 0 where
  never : {attempt : ℕ} {w : h.World} → Fails h password attempt 0 w w
  once_more :
      {attempt n : ℕ} {w w₁ w₂ w₃ : h.World} (e : LoginError)
      → h.log_in password w ≡ (err e, w₁)
      → e.transient ≡ true
      → h.back_off (suc attempt * back_off_step) w₁ ≡ (none, w₂)
      → Fails h password (suc attempt) n w₂ w₃
      → Fails h password attempt (suc n) w w₃

module _ (h : Host) where
  tried-Fails :
      (password : h.Password) (session : h.Session) (attempt more n : ℕ) (w w' : h.World)
      (s : State h)
      → Fails h password attempt n s.world w
      → n ≤ more
      → h.log_in password w ≡ (ok session, w')
      → tried h attempt more password (log_in_once h password s)
        ≡ (ok session, record s { world = w'; logins = suc (n + s.logins) })
  unfolding tried
  tried-Fails password session attempt more zero w w' s never le e =
      let sum : s.logins ≡ 0 + s.logins = omega arith in
      rw e (ap (λ k. (ok session, record s { world = w'; logins = suc k })) sum)
  tried-Fails password session attempt zero (suc n) w w' s (once_more x f t b rest) le e =
      ground arith
  tried-Fails password session attempt (suc more) (suc n) w w' s (once_more {w₂ = w₂} x f t b rest)
        le e =
      let t' = record s { world = w₂; logins = suc s.logins } in
      let sum : n + suc s.logins ≡ suc n + s.logins = omega arith in
      rw (f, t, b)
        (tried-Fails password session (suc attempt) more n w w' t' rest (omega arith) e
          ∙ ap (λ k. (ok session, record s { world = w'; logins = suc k })) sum)

  -- Logging in survives transient failures: if Login fails at most `login_retries` times in a row,
  -- each time transiently and with an unbroken wait, and then returns a session, loginWithRetry
  -- returns that session, after one call more than there were failures.
  pub login_with_retry-Fails :
      (password : h.Password) (session : h.Session) (n : ℕ) (w w' : h.World) (s : State h)
      → Fails h password 0 n s.world w
      → n ≤ h.login_retries
      → h.log_in password w ≡ (ok session, w')
      → login_with_retry h password s
        ≡ (ok session, record s { world = w'; logins = suc (n + s.logins) })
  unfolding login_with_retry
  login_with_retry-Fails password session n w w' s f le e =
      tried-Fails password session 0 h.login_retries n w w' s f le e

  resumed-grows :
      (n : ℕ) (e : LoginError) (s : State h) (b : Bool) (w : Option String × h.World)
      (next : State h → Result String h.Session × State h)
      → n ≤ s.logins
      → ((t : State h) → n ≤ t.logins → n ≤ (next t).1.logins)
      → n ≤ (resumed h e s b w next).1.logins
  resumed-grows n e s false w next le grows = le
  resumed-grows n e s true (some message, world) next le grows = le
  resumed-grows n e s true (none, world) next le grows = grows (record s { world = world }) le

  tried-grows :
      (n attempt more : ℕ) (password : h.Password) (p : Result LoginError h.Session × State h)
      → n ≤ p.1.logins
      → n ≤ (tried h attempt more password p).1.logins
  unfolding tried
  tried-grows n attempt more password (ok session, s) le = le
  tried-grows n attempt zero password (err e, s) le = le
  tried-grows n attempt (suc more) password (err e, s) le =
      resumed-grows n e s e.transient (h.back_off (suc attempt * back_off_step) s.world)
        (λ t. tried h (suc attempt) more password (log_in_once h password t)) le
        (λ t k.
          tried-grows n (suc attempt) more password (log_in_once h password t) (omega (arith, k)))

  keep_session-logins :
      (now : ℕ) (p : Result String h.Session × State h)
      → (keep_session h now p).1.logins ≡ p.1.logins
  keep_session-logins now (ok session, s) = refl
  keep_session-logins now (err message, s) = refl

  module _ (answer : Reply → ActionResponse × Bool) where
    -- a new login, or a failure with nothing sent
    abbrev pub IsRenewed : State h → ActionResponse × State h → Type 0
    IsRenewed s p = (suc s.logins ≤ p.1.logins) ⊎ ((p.0.ok ≡ false) × (p.1.sent ≡ s.sent))

    sent_with-IsRenewed :
        (s : State h) (p : Result String h.Session × State h)
        → suc s.logins ≤ p.1.logins
        → IsRenewed s (first_of h answer (sent_with h answer p))
    sent_with-IsRenewed s (ok session, t) le = inl le
    sent_with-IsRenewed s (err message, t) le = inl le

    with_secret-IsRenewed :
        (now : ℕ) (s : State h) (p : Result String h.Password × h.World)
        → IsRenewed s (first_of h answer (sent_with h answer (with_secret h now s p)))
    unfolding login_with_retry
    with_secret-IsRenewed now s (err message, world) = inr (refl, refl)
    with_secret-IsRenewed now s (ok password, world) =
        let t = record s { world = world } in
        let p = login_with_retry h password t in
        sent_with-IsRenewed s (keep_session h now p) (
          rw (keep_session-logins now p) (
            tried-grows (suc s.logins) 0 h.login_retries password (log_in_once h password t)
              (omega arith)))

    again-IsRenewed :
        (p : (ActionResponse × Bool) × State h) → p.0.1 ≡ true → IsRenewed p.1 (again h answer p)
    unfolding execute_once invalidate_session login
    again-IsRenewed ((response, false), s) e = ground arith
    again-IsRenewed ((response, true), s) e =
        let ran = h.now s.world in
        let t = record s { world = ran.1; session = none } in
        with_secret-IsRenewed ran.0 t (h.get_secret t.world)

    -- When the first request is refused for its session, the second is not sent with the cached one:
    -- either Login has been called again since, or the answer is a failure and nothing more was sent.
    pub execute-IsRenewed :
        (s : State h)
        → (execute_once h answer s).0.1 ≡ true
        → IsRenewed (execute_once h answer s).1 (execute h answer s)
    unfolding execute
    execute-IsRenewed s e = again-IsRenewed (execute_once h answer s) e
