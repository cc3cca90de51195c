-- ===== src/Owa/Session.antt =====
-- The cached session of internal/transport/owa/transport.go: login, loginWithRetry and
-- invalidateSession. Each of them holds the transport's mutex.
use outlook_agent.Prelude.{
  Bool, Option, Result, String, err, false, if◌then◌else◌, leb, ltb, none, ok, some, suc, true,
  zero, ℕ, ◌*◌, ◌+◌,
}
use outlook_agent.Owa.{CachedSession, Host, LoginError, State, default_session_ttl}

-- a quarter of a second, in nanoseconds
abbrev pub back_off_step : ℕ
back_off_step = 250_000_000

module _ (h : Host) where
  -- Login
  abbrev pub log_in_once : h.Password → State h → Result LoginError h.Session × State h
  log_in_once password s =
      let (result, world) = h.log_in password s.world in
      (result, record s { world = world; logins = suc s.logins })

  -- after an error of Login: give up, or wait and go on
  abbrev pub resumed :
      LoginError
      → State h
      → Bool
      → Option String × h.World
      → (State h → Result String h.Session × State h)
      → Result String h.Session × State h
  resumed e s false waited next = (err e.message, s)
  resumed e s true (some message, world) next = (err message, record s { world = world })
  resumed e s true (none, world) next = next (record s { world = world })

  -- The loop of loginWithRetry, from the result of an attempt on, with so many attempts left.
  unfoldable pub tried :
      ℕ → ℕ → h.Password → Result LoginError h.Session × State h → Result String h.Session × State h
  tried attempt more password (ok session, s) = (ok session, s)
  tried attempt zero password (err e, s) = (err e.message, s)
  tried attempt (suc more) password (err e, s) =
      resumed e s e.transient (h.back_off (suc attempt * back_off_step) s.world)
        (λ t. tried (suc attempt) more password (log_in_once password t))

  unfoldable pub login_with_retry : h.Password → State h → Result String h.Session × State h
  unfolding tried
  login_with_retry password s = tried 0 h.login_retries password (log_in_once password s)

  abbrev cached : ℕ → h.Session → CachedSession h
  cached now session = record {
    session = session;
    created_at = now;
    last_used_at = now;
    expires_at = now + (if leb h.session_ttl 0 then default_session_ttl else h.session_ttl);
  }

  abbrev pub keep_session :
      ℕ → Result String h.Session × State h → Result String h.Session × State h
  keep_session now (err message, s) = (err message, s)
  keep_session now (ok session, s) = (ok session, record s { session = some (cached now session) })

  abbrev pub with_secret :
      ℕ → State h → Result String h.Password × h.World → Result String h.Session × State h
  with_secret now s (err message, world) = (err message, record s { world = world })
  with_secret now s (ok password, world) =
      keep_session now (login_with_retry password (record s { world = world }))

  -- a new login, whose session is cached
  abbrev pub log_in_anew : ℕ → State h → Result String h.Session × State h
  log_in_anew now s = with_secret now s (h.get_secret s.world)

  abbrev pub logged_in : ℕ → State h → Option (CachedSession h) → Result String h.Session × State h
  logged_in now s none = log_in_anew now s
  logged_in now s (some c) =
      if ltb now c.expires_at
      then (ok c.session, record s { session = some (record c { last_used_at = now }) })
      else log_in_anew now s

  -- login
  unfoldable pub login : State h → Result String h.Session × State h
  unfolding login_with_retry
  login s = let (now, world) = h.now s.world in logged_in now (record s { world = world }) s.session

  unfoldable pub invalidate_session : State h → State h
  invalidate_session s = record s { session = none }
