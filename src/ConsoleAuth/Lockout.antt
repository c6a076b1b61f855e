-- ===== src/ConsoleAuth/Lockout.antt =====
-- src/console/auth.js: when the throttle makes a client wait.
use ichibi_lake.Base.{
  ℕ, ◌+◌, ◌≤◌, ◌<◌, String, ◌≡◌, refl, ap, sym, ◌∙◌, Bool, ◌||◌, List, [], ◌∷◌, ◌++◌, ◌==◌, arith,
  ltb, leb, length, filter, any, if◌then◌else◌,
}
use ichibi_lake.Base.Dict.{if_split, lookup, insert, erase}
use ichibi_lake.ConsoleAuth.Throttle.{
  Failures, times_of, is_live, recent, longer, longest_wait, retry_after_seconds, fail, succeed,
  Attempt, asks, fails, succeeds, apply, run,
}
use ichibi_lake.ConsoleAuth.Times.{
  noted, cleared, after_attempt, failures_of, filter-append, times_of-insert, times_of-erase,
  times_of-store_times, head_passes, wait_pos, or_assoc,
}

module _ (max_failures window : ℕ) where
  abbrev pub in_window : ℕ → List ℕ → List ℕ
  in_window n times = filter (is_live max_failures window n) times

  -- A failure that is out of the window stays out.
  in_window-in_window :
      (now n : ℕ) (ts : List ℕ) → now ≤ n → in_window n (in_window now ts) ≡ in_window n ts
  in_window-in_window now n [] l = refl
  in_window-in_window now n (t ∷ ts) l = ground (arith, in_window-in_window now n ts l, l)

  -- The recorded times count as these do, now and later.
  unfoldable Agrees : ℕ → List ℕ → List ℕ → Type 0
  Agrees now xs ys = (n : ℕ) → now ≤ n → in_window n xs ≡ in_window n ys

  times_of-recent :
      (now : ℕ) (k j : String) (s : Failures)
      → times_of j (recent max_failures window now k s).1
        ≡ (if k == j then in_window now (times_of k s) else times_of j s)
  unfolding recent
  times_of-recent now k j s = times_of-store_times k j _ s

  recent-Agrees :
      (now : ℕ) (k j : String) (s : Failures) (ys : List ℕ)
      → Agrees now (times_of j s) ys
      → Agrees now (times_of j (recent max_failures window now k s).1) ys
  unfolding Agrees
  recent-Agrees now k j s ys v n l =
      ap (in_window n) (times_of-recent now k j s)
      ∙ if_split k j
          (λ b.
            in_window n (if b then in_window now (times_of k s) else times_of j s)
            ≡ in_window n (times_of j s))
          (λ same.
            in_window-in_window now n (times_of k s) l ∙ ap (λ x. in_window n (times_of x s)) same)
          (λ apart. refl)
      ∙ v n l

  fail_one-Agrees :
      (now : ℕ) (k j : String) (s : Failures) (ys : List ℕ)
      → Agrees now (times_of j s) ys
      → Agrees now
          (times_of j (
            insert k
              ((recent max_failures window now k s).0 ++ now ∷ [])
              (recent max_failures window now k s).1))
          (if k == j then ys ++ now ∷ [] else ys)
  unfolding Agrees recent
  fail_one-Agrees now k j s ys v n l =
      let r = (recent max_failures window now k s).1 in
      ap (in_window n) (times_of-insert k j (in_window now (times_of k s) ++ now ∷ []) r)
      ∙ if_split k j
          (λ b.
            in_window n (if b then in_window now (times_of k s) ++ now ∷ [] else times_of j r)
            ≡ in_window n (if b then ys ++ now ∷ [] else ys))
          (λ same.
            filter-append _ (in_window now (times_of k s)) (now ∷ [])
            ∙ ap (λ xs. xs ++ in_window n (now ∷ []))
                (in_window-in_window now n (times_of k s) l
                  ∙ ap (λ x. in_window n (times_of x s)) same
                  ∙ v n l)
            ∙ sym (filter-append _ ys (now ∷ [])))
          (λ apart. recent-Agrees now k j s ys v n l)

  fail-Agrees :
      (now : ℕ) (ks : List String) (j : String) (s : Failures) (ys : List ℕ)
      → Agrees now (times_of j s) ys
      → Agrees now (times_of j (fail max_failures window now ks s)) (noted now ks j ys)
  unfolding fail
  fail-Agrees now [] j s ys v = v
  fail-Agrees now (k ∷ ks) j s ys v = fail-Agrees now ks j _ _ (fail_one-Agrees now k j s ys v)

  erase-Agrees :
      (now : ℕ) (k j : String) (s : Failures) (ys : List ℕ)
      → Agrees now (times_of j s) ys
      → Agrees now (times_of j (erase k s)) (if k == j then [] else ys)
  unfolding Agrees
  erase-Agrees now k j s ys v n l =
      ap (in_window n) (times_of-erase k j s)
      ∙ if_split k j
          (λ b. in_window n (if b then [] else times_of j s) ≡ in_window n (if b then [] else ys))
          (λ same. refl) (λ apart. v n l)

  succeed-Agrees :
      (now : ℕ) (ks : List String) (j : String) (s : Failures) (ys : List ℕ)
      → Agrees now (times_of j s) ys
      → Agrees now (times_of j (succeed max_failures window ks s)) (cleared ks j ys)
  unfolding succeed
  succeed-Agrees now [] j s ys v = v
  succeed-Agrees now (k ∷ ks) j s ys v = succeed-Agrees now ks j _ _ (erase-Agrees now k j s ys v)

  -- A key that has this many failures in the window.
  abbrev pub is_locked : ℕ → List ℕ → Bool
  is_locked now times = leb max_failures (length (in_window now times))

  longer-locked :
      (now wait : ℕ) (ts xs : List ℕ)
      → 0 < max_failures
      → in_window now xs ≡ ts
      → ltb 0 (longer max_failures window now wait ts)
        ≡ (ltb 0 wait || leb max_failures (length ts))
  longer-locked now wait [] xs pos h = ground (arith, pos)
  longer-locked now wait (t ∷ ts) xs pos h =
      let recent_enough = head_passes _ xs t ts h in
      let some_wait = wait_pos (t + window) now (ground (arith, recent_enough)) in
      ground (arith, some_wait)

  longest_wait-locked :
      (now wait : ℕ) (ks : List String) (s : Failures) (ys : String → List ℕ)
      → 0 < max_failures
      → ((j : String) → Agrees now (times_of j s) (ys j))
      → ltb 0 (longest_wait max_failures window now wait ks s).0
        ≡ (ltb 0 wait || any (λ k. is_locked now (ys k)) ks)
  unfolding longest_wait Agrees recent
  longest_wait-locked now wait [] s ys pos v = ground arith
  longest_wait-locked now wait (k ∷ ks) s ys pos v =
      let r = recent max_failures window now k s in
      let same : in_window now (times_of k s) ≡ in_window now (ys k) = v k now (ground arith) in
      longest_wait-locked now (longer max_failures window now wait r.0) ks r.1 ys pos
        (λ j. recent-Agrees now k j s (ys j) (v j))
      ∙ ap (λ b. b || any (λ k. is_locked now (ys k)) ks)
          (longer-locked now wait r.0 (times_of k s) pos refl
            ∙ ap (λ xs. ltb 0 wait || leb max_failures (length xs)) same)
      ∙ or_assoc (ltb 0 wait) (is_locked now (ys k)) (any (λ k. is_locked now (ys k)) ks)

  longest_wait-Agrees :
      (now wait : ℕ) (ks : List String) (j : String) (s : Failures) (ys : List ℕ)
      → Agrees now (times_of j s) ys
      → Agrees now (times_of j (longest_wait max_failures window now wait ks s).1) ys
  unfolding longest_wait
  longest_wait-Agrees now wait [] j s ys v = v
  longest_wait-Agrees now wait (k ∷ ks) j s ys v =
      longest_wait-Agrees now
        (longer max_failures window now wait (recent max_failures window now k s).0) ks j
        (recent max_failures window now k s).1 ys (recent-Agrees now k j s ys v)

  nothing_yet : (now : ℕ) (j : String) → Agrees now (times_of j []) []
  unfolding Agrees lookup
  nothing_yet now j n l = refl

  apply-Agrees :
      (now : ℕ) (a : Attempt) (j : String) (s : Failures) (ys : List ℕ)
      → Agrees now (times_of j s) ys
      → Agrees now (times_of j (apply max_failures window now a s)) (after_attempt now a j ys)
  unfolding apply retry_after_seconds
  apply-Agrees now (asks keys) j s ys v = longest_wait-Agrees now 0 keys j s ys v
  apply-Agrees now (fails keys) j s ys v = fail-Agrees now keys j s ys v
  apply-Agrees now (succeeds keys) j s ys v = succeed-Agrees now keys j s ys v

  Agrees-later : (now d : ℕ) (xs ys : List ℕ) → Agrees now xs ys → Agrees (now + d) xs ys
  unfolding Agrees
  Agrees-later now d xs ys v n l = v n (omega (arith, l))

  run-Agrees :
      (now : ℕ) (attempts : List (ℕ × Attempt)) (j : String) (s : Failures) (ys : List ℕ)
      → Agrees now (times_of j s) ys
      → Agrees
          (run max_failures window now attempts s).0
          (times_of j (run max_failures window now attempts s).1)
          (failures_of j now attempts ys)
  unfolding run
  run-Agrees now [] j s ys v = v
  run-Agrees now (a ∷ later) j s ys v =
      run-Agrees (now + a.0) later j (apply max_failures window (now + a.0) a.1 s)
        (after_attempt (now + a.0) a.1 j ys)
        (apply-Agrees (now + a.0) a.1 j s ys (Agrees-later now a.0 (times_of j s) ys v))

  -- After any attempts, at any times one after the other: the throttle makes a client wait
  -- exactly when, for one of its keys, the failures since the last success of the key that are
  -- younger than the window are at least the limit, the limit being positive.
  pub retry_after_seconds-locked :
      (start : ℕ) (attempts : List (ℕ × Attempt)) (keys : List String)
      → 0 < max_failures
      → ltb 0
          (retry_after_seconds max_failures window
            (run max_failures window start attempts []).0
            keys
            (run max_failures window start attempts []).1).0
        ≡ any
            (λ key.
              is_locked
                (run max_failures window start attempts []).0
                (failures_of key start attempts []))
            keys
  unfolding retry_after_seconds
  retry_after_seconds-locked start attempts keys pos =
      let done = run max_failures window start attempts [] in
      longest_wait-locked done.0 0 keys done.1 (λ key. failures_of key start attempts []) pos
        (λ j. run-Agrees start attempts j [] [] (nothing_yet start j))
