-- ===== src/RateLimit/Bound.antt =====
-- How many requests the limiter lets through in a window.
use arvan.Prelude.{
  ⊤, inl, inr, ℕ, ◌≤◌, ◌<◌, Bool-cases, Option, none, some, List, [], ◌∷◌, refl, arith, leb,
}
use arvan.Prelude.Lists.{length, select, length-select}
use arvan.Domain.{Time}
use arvan.RateLimit.{
  nothing_stored, SortedSet, RedisLimiter, Answers, current, zremrangebyscore, pipeline, decide,
  executed, allow,
}
use arvan.RateLimit.Window.{Everyone, Everyone-weaken, select-narrower, Within-length, Within-more}
use arvan.RateLimit.Admission.{
  Request, History, admit, serve, serve_all, in_window, in_window-earlier, IsMonotone, Kept,
  current-Kept, zremrangebyscore-Kept, other_than-Within, pipeline-Kept, zrem-Kept,
}

module _ (float64 : ℕ → ℕ) (limiter : RedisLimiter) where
  -- What the last request left: the members, no more admitted times in its window than the limit, and
  -- none later than it.
  pub record Counted (last : Time) (h : History) : Type 0 where
    pub kept : Kept float64 limiter last h.admitted h.set
    pub few : length (select (in_window float64 limiter last) h.admitted) ≤ limiter.limit
    pub before : Everyone (λ t. t ≤ last) h.admitted

  -- The window only loses times as it moves on.
  window-fewer :
      (monotone : IsMonotone float64 limiter) (last now : Time) (ts : List Time)
      → last ≤ now
      → length (select (in_window float64 limiter last) ts) ≤ limiter.limit
      → length (select (in_window float64 limiter now) ts) ≤ limiter.limit
  window-fewer monotone last now ts later few =
      let narrower =
        select-narrower (in_window float64 limiter now) (in_window float64 limiter last) ts
          (λ t. in_window-earlier float64 limiter monotone last now t later) in
      let bound =
        length-select (in_window float64 limiter now)
          (select (in_window float64 limiter last) ts) in
      omega (arith, few, rw narrower at bound)

  module _ (monotone : IsMonotone float64 limiter) (now : Time) where
    -- A whole pipeline leaves the member of this request too.
    pipeline-admits :
        (ts : List Time) (set : SortedSet)
        → Everyone (λ t. t < now) ts
        → Kept float64 limiter now ts set
        → Kept float64 limiter now (now ∷ ts) (pipeline float64 limiter 4 now set)
    unfolding pipeline
    pipeline-admits ts set before h =
        let removed = zremrangebyscore-Kept float64 limiter monotone now ts set before h in
        let others =
          other_than-Within float64 limiter monotone now ts
            (zremrangebyscore float64 limiter now set).entries before removed.within in
        record {
          within = elim (Bool-cases (in_window float64 limiter now now)) [
            | inl inside ↦ rw inside (inl (refl, refl, others))
            | inr outside ↦
                rw outside
                  (Within-more float64 (select (in_window float64 limiter now) ts) _ _ others)
          ];
          lasting = λ at e. (ground arith, Everyone-weaken ts (λ t earlier. ground arith) before);
        }

    -- The count of a set bounds the admitted times.
    Kept-length :
        (ts : List Time) (set : SortedSet)
        → Kept float64 limiter now ts set
        → length (select (in_window float64 limiter now) ts) ≤ length set.entries
    Kept-length ts set h =
        Within-length float64 (select (in_window float64 limiter now) ts) set.entries h.within

    decide-Counted :
        (answers : Answers) (ts : List Time) (set : SortedSet)
        → Everyone (λ t. t < now) ts
        → length (select (in_window float64 limiter now) ts) ≤ limiter.limit
        → Kept float64 limiter now ts set
        → Kept float64 limiter now (now ∷ ts) set
        → let (result, left) = decide float64 limiter answers now set in
          Counted now (record { set = left; admitted = admit now result ts })
    unfolding decide
    decide-Counted answers ts set before few out into =
        elim (Bool-cases (leb (length set.entries) limiter.limit)) [
          | inl fits ↦
              (rw fits (record {
                kept = into;
                few = ground (arith, Kept-length (now ∷ ts) set into);
                before = (omega arith, Everyone-weaken ts (λ t earlier. ground arith) before);
              }))
          | inr full ↦
              (rw full (record {
                kept = zrem-Kept float64 limiter monotone now answers.removes ts set before out;
                few = few;
                before = Everyone-weaken ts (λ t earlier. ground arith) before;
              }))
        ]

  executed-Counted :
      (monotone : IsMonotone float64 limiter) (now : Time) (broken : Option ℕ) (answers : Answers)
      (ts : List Time) (set : SortedSet)
      → Everyone (λ t. t < now) ts
      → length (select (in_window float64 limiter now) ts) ≤ limiter.limit
      → Kept float64 limiter now ts set
      → let (result, left) = executed float64 limiter broken answers now set in
        Counted now (record { set = left; admitted = admit now result ts })
  unfolding executed
  executed-Counted monotone now (some commands) answers ts set before few h = record {
    kept = pipeline-Kept float64 limiter monotone now commands ts set before h;
    few = few;
    before = Everyone-weaken ts (λ t earlier. ground arith) before;
  }
  executed-Counted monotone now none answers ts set before few h =
      decide-Counted monotone now answers ts (pipeline float64 limiter 4 now set) before few
        (pipeline-Kept float64 limiter monotone now 4 ts set before h)
        (pipeline-admits monotone now ts set before h)

  serve-Counted :
      (monotone : IsMonotone float64 limiter) (last : Time) (r : Request) (h : History)
      → last < r.at
      → Counted last h
      → Counted r.at (serve float64 limiter r h)
  unfolding allow
  serve-Counted monotone last r h later counted =
      executed-Counted monotone r.at r.answers.broken_after r.answers h.admitted
        (current r.at h.set) (Everyone-weaken h.admitted (λ t past. omega arith) counted.before)
        (window-fewer monotone last r.at h.admitted (omega arith) counted.few)
        (current-Kept float64 limiter monotone r.at last h.admitted h.set later counted.kept)

  -- Requests later than a time, each later than the one before.
  abbrev pub IsInOrder : Time → List Request → Type 0
  IsInOrder last [] = ⊤
  IsInOrder last (r ∷ rs) = (last < r.at) × IsInOrder r.at rs

  abbrev pub last_time : Time → List Request → Time
  last_time last [] = last
  last_time last (r ∷ rs) = last_time r.at rs

  serve_all-Counted :
      (monotone : IsMonotone float64 limiter) (last : Time) (rs : List Request) (h : History)
      → IsInOrder last rs
      → Counted last h
      → Counted (last_time last rs) (serve_all float64 limiter rs h)
  serve_all-Counted monotone last [] h in_order counted = counted
  serve_all-Counted monotone last (r ∷ rs) h (later, in_order) counted =
      serve_all-Counted monotone r.at rs (serve float64 limiter r h) in_order
        (serve-Counted monotone last r h later counted)

  -- Whatever Redis answers, and whichever commands fail: where the requests of an account come one
  -- after the other at later and later nanoseconds, and the conversion to float64 keeps their
  -- order, no more of them than the limit are let through in any window that ends with the last
  -- request or later, as their scores tell.
  pub serve_all-bound :
      (monotone : IsMonotone float64 limiter) (first : Time) (rs : List Request) (now : Time)
      → IsInOrder first rs
      → last_time first rs ≤ now
      → length (
          select
            (in_window float64 limiter now)
            (serve_all float64 limiter rs
              (record { set = nothing_stored; admitted = [] })).admitted)
        ≤ limiter.limit
  serve_all-bound monotone first rs now in_order ends =
      let counted =
        serve_all-Counted monotone first rs (record { set = nothing_stored; admitted = [] })
          in_order
          (record {
            kept = record { within = tt; lasting = λ at e. tt };
            few = omega arith;
            before = tt;
          }) in
      window-fewer monotone (last_time first rs) now
        (serve_all float64 limiter rs (record { set = nothing_stored; admitted = [] })).admitted
        ends counted.few
