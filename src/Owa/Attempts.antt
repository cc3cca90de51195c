-- ===== src/Owa/Attempts.antt =====
-- How often the OWA transport logs in and sends: the retries end, and they are used.
use outlook_agent.Prelude.{
  Bool, Bool-cases, Option, Result, String, [], arith, err, false, inl, inr, length, length-append,
  ltb, none, ok, refl, some, subst, suc, sym, true, zero, ℕ, ◌*◌, ◌++◌, ◌+◌, ◌∷◌, ◌≡◌, ◌≤◌,
}
use outlook_agent.Server.{ActionResponse}
use outlook_agent.Owa.{CachedSession, Host, LoginError, Reply, State}
use outlook_agent.Owa.Session.{
  back_off_step, invalidate_session, keep_session, log_in_once, logged_in, login, login_with_retry,
  resumed, tried, with_secret,
}
use outlook_agent.Owa.Service.{again, execute, execute_once, sent_with}

module _ (h : Host) where
  -- from `s` to `t`, at most so many logins, and nothing sent
  abbrev LogsIn : ℕ → State h → State h → Type 0
  LogsIn n s t = (t.logins ≤ s.logins + n) × (t.sent ≡ s.sent)

  resumed-LogsIn :
      (n : ℕ) (e : LoginError) (s : State h) (b : Bool) (w : Option String × h.World)
      (next : State h → Result String h.Session × State h)
      → ((t : State h) → LogsIn n t (next t).1)
      → LogsIn n s (resumed h e s b w next).1
  resumed-LogsIn n e s false w next keeps = (omega arith, refl)
  resumed-LogsIn n e s true (some message, world) next keeps = (omega arith, refl)
  resumed-LogsIn n e s true (none, world) next keeps = keeps (record s { world = world })

  tried-LogsIn :
      (attempt more : ℕ) (password : h.Password) (p : Result LoginError h.Session × State h)
      → LogsIn more p.1 (tried h attempt more password p).1
  unfolding tried
  tried-LogsIn attempt more password (ok session, s) = (omega arith, refl)
  tried-LogsIn attempt zero password (err e, s) = (omega arith, refl)
  tried-LogsIn attempt (suc more) password (err e, s) =
      resumed-LogsIn (suc more) e s e.transient (h.back_off (suc attempt * back_off_step) s.world)
        (λ t. tried h (suc attempt) more password (log_in_once h password t))
        (λ t.
          let r = tried-LogsIn (suc attempt) more password (log_in_once h password t) in
          (omega (arith, r.0), r.1))

  login_with_retry-LogsIn :
      (password : h.Password) (s : State h)
      → LogsIn (suc h.login_retries) s (login_with_retry h password s).1
  unfolding login_with_retry
  login_with_retry-LogsIn password s =
      let r = tried-LogsIn 0 h.login_retries password (log_in_once h password s) in
      (omega (arith, r.0), r.1)

  keep_session-LogsIn :
      (n now : ℕ) (s : State h) (p : Result String h.Session × State h)
      → LogsIn n s p.1
      → LogsIn n s (keep_session h now p).1
  keep_session-LogsIn n now s (ok session, t) k = k
  keep_session-LogsIn n now s (err message, t) k = k

  with_secret-LogsIn :
      (now : ℕ) (s : State h) (p : Result String h.Password × h.World)
      → LogsIn (suc h.login_retries) s (with_secret h now s p).1
  with_secret-LogsIn now s (err message, world) = (omega arith, refl)
  with_secret-LogsIn now s (ok password, world) =
      let t = record s { world = world } in
      keep_session-LogsIn (suc h.login_retries) now s (login_with_retry h password t)
        (login_with_retry-LogsIn password t)

  logged_in-LogsIn :
      (now : ℕ) (s : State h) (o : Option (CachedSession h))
      → LogsIn (suc h.login_retries) s (logged_in h now s o).1
  logged_in-LogsIn now s none = with_secret-LogsIn now s (h.get_secret s.world)
  logged_in-LogsIn now s (some c) = elim (Bool-cases (ltb now c.expires_at)) [
    | inl e ↦ rw e (omega arith, refl)
    | inr e ↦ rw e (with_secret-LogsIn now s (h.get_secret s.world))
  ]

  login-LogsIn : (s : State h) → LogsIn (suc h.login_retries) s (login h s).1
  unfolding login
  login-LogsIn s =
      let ran = h.now s.world in logged_in-LogsIn ran.0 (record s { world = ran.1 }) s.session

  -- from `s` to `t`, at most so many logins and so many requests
  abbrev pub Within : ℕ → ℕ → State h → State h → Type 0
  Within n m s t = (t.logins ≤ s.logins + n) × (length t.sent ≤ length s.sent + m)

  module _ (answer : Reply → ActionResponse × Bool) where
    sent_with-Within :
        (n : ℕ) (s : State h) (p : Result String h.Session × State h)
        → LogsIn n s p.1
        → Within n 1 s (sent_with h answer p).1
    sent_with-Within n s (err message, t) k =
        (k.0, subst (λ xs. length xs ≤ length s.sent + 1) (sym k.1) (omega arith))
    sent_with-Within n s (ok session, t) k = (
      k.0,
      subst (λ xs. length (xs ++ session ∷ []) ≤ length s.sent + 1) (sym k.1)
          (omega (arith, length-append s.sent (session ∷ []))),
    )

    execute_once-Within :
        (s : State h) → Within (suc h.login_retries) 1 s (execute_once h answer s).1
    unfolding execute_once
    execute_once-Within s = sent_with-Within (suc h.login_retries) s (login h s) (login-LogsIn s)

    again-Within :
        (n : ℕ) (s : State h) (p : (ActionResponse × Bool) × State h)
        → Within n 1 s p.1
        → Within (n + suc h.login_retries) 2 s (again h answer p).1
    unfolding invalidate_session
    again-Within n s ((response, false), t) k = (omega (arith, k.0), omega (arith, k.1))
    again-Within n s ((response, true), t) k =
        let e = execute_once-Within (invalidate_session h t) in
        (omega (arith, k.0, e.0), omega (arith, k.1, e.1))

    -- Whatever the host answers, an action of the OWA service ends after at most two requests, and
    -- after at most as many logins as two rounds of one attempt and its retries.
    pub execute-Within :
        (s : State h)
        → Within (suc h.login_retries + suc h.login_retries) 2 s (execute h answer s).1
    unfolding execute
    execute-Within s =
        again-Within (suc h.login_retries) s (execute_once h answer s) (execute_once-Within s)
