-- ===== src/RateLimiter/Windows.antt =====
-- How many requests the limiter of apps/desktop-agent/src/ipc/rate-limiter.ts lets through in a
-- window, over any sequence of calls of `isRateLimited`.
use nexus_os_ai_workspace.Base.{
  ◌⊎◌, ◌↔◌, length-filter, ℕ, ◌≤◌, ◌≡◌, refl, String, Bool, true, ◌&&◌, List, [], ◌∷◌, ◌++◌,
  if◌then◌else◌, filter, length, count, get, put, get-put, get_or, ◌==◌, eq_iff, arith,
  length-append, count-append, length-filter-le, count-le-length,
}
use nexus_os_ai_workspace.RateLimiter.{
  Limits, Limiter, new_limiter, is_recent, stamps_of, limit_client, is_rate_limited,
}

-- The requests let through, as client and time, newest first.
abbrev Log : Type 0
Log = List (String × ℕ)

abbrev pub made_since : Limits → ℕ → String × ℕ → Bool
made_since limits now (c, t) = is_recent limits now t

abbrev pub made_by_since : Limits → String → ℕ → String × ℕ → Bool
made_by_since limits client now (c, t) = (c == client) && is_recent limits now t

-- Calls one after another.
abbrev pub serve : Limits → Limiter × Log → String × ℕ → Limiter × Log
serve limits (l, log) (client, now) =
    let (l', limited) = is_rate_limited limits l client now in
    (l', if limited then log else (client, now) ∷ log)

abbrev pub serve_all : Limits → Limiter × Log → List (String × ℕ) → Limiter × Log
serve_all limits s [] = s
serve_all limits s (q ∷ qs) = serve_all limits (serve limits s q) qs

-- A clock that does not go back: the times of the calls, from `t` on.
abbrev pub Ordered : ℕ → List (String × ℕ) → Type 0
Ordered t [] = Unit
Ordered t ((c, now) ∷ qs) = (t ≤ now) × Ordered now qs

abbrev pub last_time : ℕ → List (String × ℕ) → ℕ
last_time t [] = t
last_time t ((c, now) ∷ qs) = last_time now qs

module _ (limits : Limits) where
  -- What lapsed at an earlier time is not recent at a later one.
  count-recent-filter :
      (before now : ℕ) (ts : List ℕ)
      → before ≤ now
      → count (is_recent limits now) (filter (is_recent limits before) ts)
        ≡ count (is_recent limits now) ts
  count-recent-filter before now [] h = refl
  count-recent-filter before now (t ∷ ts) h = ground (arith, count-recent-filter before now ts h)

  -- The limiter's time stamps stand for the log, and none of its lists exceeds its limit.
  record Tracks (l : Limiter) (log : Log) (last : ℕ) : Type 0 where
    global_tracks :
        (now : ℕ)
        → last ≤ now
        → count (is_recent limits now) l.global_requests ≡ count (made_since limits now) log
    global_fits : length l.global_requests ≤ limits.global_max_requests
    client_tracks :
        (client : String) (now : ℕ)
        → last ≤ now
        → count (is_recent limits now) (stamps_of client l)
          ≡ count (made_by_since limits client now) log
    client_fits : (client : String) → length (stamps_of client l) ≤ limits.max_requests

  new_limiter-Tracks : Tracks new_limiter [] 0
  unfolding get
  new_limiter-Tracks = record {
    global_tracks = λ now h. refl;
    global_fits = ground arith;
    client_tracks = λ client now h. refl;
    client_fits = λ client. ground arith;
  }

  stamps-put :
      (client other : String) (ts : List ℕ) (m : List (String × List ℕ))
      → get_or (get other (put client ts m)) []
        ≡ (if client == other then ts else get_or (get other m) [])
  stamps-put client other ts m = ground (arith, get-put client other ts m)

  serve-Tracks :
      (l : Limiter) (log : Log) (last : ℕ) (client : String) (now : ℕ)
      → Tracks l log last
      → last ≤ now
      → (let (l', log') = serve limits (l, log) (client, now) in Tracks l' log' now)
  unfolding is_rate_limited limit_client
  serve-Tracks l log last client now t h =
      let valid = filter (is_recent limits now) (stamps_of client l) in
      let kept = filter (is_recent limits now) l.global_requests in
      record {
        global_tracks = λ at le. ground (
          arith,
          t.global_tracks at,
          count-recent-filter now at l.global_requests le,
          count-append (is_recent limits at) kept (now ∷ []),
        );
        global_fits = ground (
          arith,
          t.global_fits,
          length-filter-le (is_recent limits now) l.global_requests,
          length-append kept (now ∷ []),
        );
        client_tracks = λ other at le. ground (
          arith,
          t.client_tracks other at,
          count-recent-filter now at (stamps_of client l) le,
          count-append (is_recent limits at) valid (now ∷ []),
          stamps-put client other valid l.client_requests,
          stamps-put client other (valid ++ now ∷ []) l.client_requests,
          eq_iff client other,
        );
        client_fits = λ other. ground (
          arith,
          t.client_fits other,
          length-filter-le (is_recent limits now) (stamps_of client l),
          length-append valid (now ∷ []),
          stamps-put client other valid l.client_requests,
          stamps-put client other (valid ++ now ∷ []) l.client_requests,
          eq_iff client other,
        );
      }

  serve_all-Tracks :
      (qs : List (String × ℕ)) (l : Limiter) (log : Log) (last : ℕ)
      → Tracks l log last
      → Ordered last qs
      → (let (l', log') = serve_all limits (l, log) qs in Tracks l' log' (last_time last qs))
  serve_all-Tracks [] l log last t ordered = t
  serve_all-Tracks ((client, now) ∷ qs) l log last t (h, ordered) =
      let (l', log') = serve limits (l, log) (client, now) in
      serve_all-Tracks qs l' log' now (serve-Tracks l log last client now t h) ordered

  -- Take any calls on a new limiter whose clock does not go back, and a time no earlier than the
  -- last of them. In the window that ends at that time, at most `global_max_requests` requests
  -- were let through, and at most `max_requests` of any one client.
  pub windows_bounded :
      (qs : List (String × ℕ)) (client : String) (now : ℕ)
      → Ordered 0 qs
      → last_time 0 qs ≤ now
      → let (l, log) = serve_all limits (new_limiter, []) qs in
        (count (made_since limits now) log ≤ limits.global_max_requests)
        × (count (made_by_since limits client now) log ≤ limits.max_requests)
  windows_bounded qs client now ordered le =
      let (l, log) = serve_all limits (new_limiter, []) qs in
      let t = serve_all-Tracks qs new_limiter [] 0 new_limiter-Tracks ordered in
      (
        ground (
          arith,
          t.global_tracks now le,
          t.global_fits,
          count-le-length (is_recent limits now) l.global_requests,
        ),
        ground (
          arith,
          t.client_tracks client now le,
          t.client_fits client,
          count-le-length (is_recent limits now) (stamps_of client l),
        ),
      )

  -- A call is limited exactly when the client has no name, or the window of all clients is full, or
  -- the window of the client is.
  pub is_rate_limited_iff :
      (l : Limiter) (client : String) (now : ℕ)
      → ((is_rate_limited limits l client now).1 ≡ true) ↔ (
          (client ≡ "")
          ⊎ ((limits.global_max_requests ≤ count (is_recent limits now) l.global_requests)
              ⊎ (limits.max_requests ≤ count (is_recent limits now) (stamps_of client l))))
  unfolding is_rate_limited limit_client
  is_rate_limited_iff l client now = ground (
    arith,
    eq_iff client "",
    length-filter (is_recent limits now) l.global_requests,
    length-filter (is_recent limits now) (stamps_of client l),
  )
