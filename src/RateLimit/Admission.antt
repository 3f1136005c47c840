-- ===== src/RateLimit/Admission.antt =====
-- Requests of one account, one after the other, at the limiter of internal/ratelimit/limiter.go.
use arvan.Prelude.{
  inl, inr, subst, ℕ, zero, suc, ◌≤◌, ◌<◌, ◌+◌, ◌-◌, Bool, true, false, Bool-cases, Option, none,
  some, List, [], ◌∷◌, ◌≡◌, refl, arith, ltb, leb, if◌then◌else◌,
}
use arvan.Prelude.Lists.{select}
use arvan.Domain.{Time, Result, ok, err}
use arvan.RateLimit.{
  above, Entry, SortedSet, RedisLimiter, AllowResult, Answers, current, is_past, stored,
  leaves_window, other_than, zremrangebyscore, zadd, expire, zrem, pipeline, allow,
}
use arvan.RateLimit.Window.{
  Everyone, Everyone-weaken, Everyone-select, select-nobody, select-narrower, Within, Within-more,
  Within-fewer, Within-keep,
}

pub record Request : Type 0 where
  pub at : Time
  pub answers : Answers

-- The set, and the times of the requests that were let through, the latest first.
pub record History : Type 0 where
  pub set : SortedSet
  pub admitted : List Time

abbrev pub admit : Time → Result AllowResult → List Time → List Time
admit at (ok result) ts = if result.allowed then at ∷ ts else ts
admit at (err e) ts = ts

module _ (float64 : ℕ → ℕ) (limiter : RedisLimiter) where
  abbrev pub serve : Request → History → History
  serve r h =
      let (result, set) = allow float64 limiter r.answers r.at h.set in
      record { set = set; admitted = admit r.at result h.admitted }

  abbrev pub serve_all : List Request → History → History
  serve_all [] h = h
  serve_all (r ∷ rs) h = serve_all rs (serve r h)

  -- Whether a time is in the window that ends now, as their scores tell.
  abbrev pub in_window : Time → Time → Bool
  in_window now t =
      if leb limiter.window now then ltb (float64 (now - limiter.window)) (float64 t) else true

  abbrev pub IsMonotone : Type 0
  IsMonotone = (m n : ℕ) → m ≤ n → float64 m ≤ float64 n

  pub in_window-earlier :
      IsMonotone
      → (now later t : Time) → now ≤ later
      → in_window later t ≡ true
      → in_window now t ≡ true
  in_window-earlier monotone now later t h e =
      ground (arith, monotone (now - limiter.window) (later - limiter.window))

  in_window-expired :
      IsMonotone → (now t : Time) → t + limiter.window < now → in_window now t ≡ false
  in_window-expired monotone now t h = ground (arith, monotone t (now - limiter.window))

  -- The admitted times in the window are members, and the set outlives them.
  pub record Kept (now : Time) (ts : List Time) (set : SortedSet) : Type 0 where
    pub within : Within float64 (select (in_window now) ts) set.entries
    pub lasting : (at : Time) → set.expires ≡ some at → Everyone (λ t. t + limiter.window < at) ts

  module _ (monotone : IsMonotone) (now : Time) where
    expired-nobody :
        (ts : List Time) (o : Option Time)
        → is_past now o ≡ true
        → ((at : Time) → o ≡ some at → Everyone (λ t. t + limiter.window < at) ts)
        → Everyone (λ t. in_window now t ≡ false) ts
    expired-nobody ts none past lasting = absurd (ground arith)
    expired-nobody ts (some at) past lasting =
        Everyone-weaken ts (λ t h. in_window-expired monotone now t (ground arith))
          (lasting at refl)

    -- The window moves on, and Redis drops the set where it has expired.
    pub current-Kept :
        (last : Time) (ts : List Time) (set : SortedSet)
        → last < now
        → Kept last ts set
        → Kept now ts (current now set)
    current-Kept last ts set later h = elim (Bool-cases (is_past now set.expires)) [
      | inl past ↦ rw past (record {
        within =
            rw (select-nobody (in_window now) ts (expired-nobody ts set.expires past h.lasting)) tt;
        lasting = λ at e. ground arith;
      })
      | inr live ↦ rw live (record {
        within =
            subst (λ xs. Within float64 xs set.entries)
              (select-narrower (in_window now) (in_window last) ts
                (λ t. in_window-earlier monotone last now t (omega arith)))
              (Within-fewer float64 (in_window now) (select (in_window last) ts) set.entries
                h.within);
        lasting = h.lasting;
      })
    ]

    stored-Kept :
        (ts : List Time) (es : List Entry) (set : SortedSet)
        → Within float64 (select (in_window now) ts) es
        → Kept now ts set
        → Kept now ts (stored es set.expires)
    stored-Kept ts [] set w h = record { within = w; lasting = λ at e. ground arith }
    stored-Kept ts (e ∷ es) set w h = record { within = w; lasting = h.lasting }

    leaves_window-Within :
        (ts : List Time) (es : List Entry)
        → Everyone (λ t. t < now) ts
        → Within float64 (select (in_window now) ts) es
        → Within float64 (select (in_window now) ts) (leaves_window float64 limiter now es)
    leaves_window-Within ts es before h = elim (Bool-cases (leb limiter.window now)) [
      | inl full ↦
          (rw full (
            Within-keep float64 (above (float64 (now - limiter.window))) (select (in_window now) ts)
              es (Everyone-select (in_window now) ts (λ t _ inside e _ score. ground arith) before)
              h))
      | inr early ↦ rw early h
    ]

    pub zremrangebyscore-Kept :
        (ts : List Time) (set : SortedSet)
        → Everyone (λ t. t < now) ts
        → Kept now ts set
        → Kept now ts (zremrangebyscore float64 limiter now set)
    zremrangebyscore-Kept ts set before h =
        stored-Kept ts (leaves_window float64 limiter now set.entries) set
          (leaves_window-Within ts set.entries before h.within) h

    -- The member of this request is nobody else's.
    pub other_than-Within :
        (ts : List Time) (es : List Entry)
        → Everyone (λ t. t < now) ts
        → Within float64 (select (in_window now) ts) es
        → Within float64 (select (in_window now) ts) (select (other_than now) es)
    other_than-Within ts es before h =
        Within-keep float64 (other_than now) (select (in_window now) ts) es
          (Everyone-select (in_window now) ts (λ t earlier _ e m _. ground arith) before) h

    zadd-Kept :
        (ts : List Time) (set : SortedSet)
        → Everyone (λ t. t < now) ts
        → Kept now ts set
        → Kept now ts (zadd float64 limiter now set)
    zadd-Kept ts set before h = record {
      within =
          Within-more float64 (select (in_window now) ts) _ _
            (other_than-Within ts set.entries before h.within);
      lasting = h.lasting;
    }

    expire-Kept :
        (ts : List Time) (set : SortedSet)
        → Everyone (λ t. t < now) ts
        → Kept now ts set
        → Kept now ts (expire float64 limiter now set)
    expire-Kept ts set before h = record {
      within = h.within;
      lasting = λ at e. Everyone-weaken ts (λ t earlier. ground arith) before;
    }

    -- A pipeline, whole or broken, keeps them.
    pub pipeline-Kept :
        (commands : ℕ) (ts : List Time) (set : SortedSet)
        → Everyone (λ t. t < now) ts
        → Kept now ts set
        → Kept now ts (pipeline float64 limiter commands now set)
    unfolding pipeline
    pipeline-Kept zero ts set before h = h
    pipeline-Kept (suc zero) ts set before h = zremrangebyscore-Kept ts set before h
    pipeline-Kept (suc (suc zero)) ts set before h =
        zadd-Kept ts _ before (zremrangebyscore-Kept ts set before h)
    pipeline-Kept (suc (suc (suc n))) ts set before h =
        expire-Kept ts _ before (zadd-Kept ts _ before (zremrangebyscore-Kept ts set before h))

    pub zrem-Kept :
        (b : Bool) (ts : List Time) (set : SortedSet)
        → Everyone (λ t. t < now) ts
        → Kept now ts set
        → Kept now ts (zrem float64 limiter b now set)
    zrem-Kept false ts set before h = h
    zrem-Kept true ts set before h =
        stored-Kept ts (select (other_than now) set.entries) set
          (other_than-Within ts set.entries before h.within) h
