-- ===== src/Server/Accept/Semaphore.antt =====
-- The semaphore and the counter of the connected clients, in every run of Serve.
use warpdb.Base.{
  ℕ, suc, ◌+◌, ◌≤◌, ◌<◌, ◌^◌, ◌≡◌, refl, ap, ◌∙◌, List, [], ◌∷◌, ◌++◌, length, length-append, arith,
}
use warpdb.Stats.{increment, decrement}
use warpdb.Server.Accept.{
  Client, spawned, received, serving, leaving, Listening, listening, admit, receive, count, uncount,
  LoopStep, accepts, retries, stops, admits, drops, refuses, OtherStep, cancels, closes_listener,
  receives, counts, leaves, releases, Run, done, loops, others,
}

-- The clients in their sessions.
pub serving_clients : List Client → ℕ
serving_clients [] = 0
serving_clients (serving ∷ cs) = suc (serving_clients cs)
serving_clients (_ ∷ cs) = serving_clients cs

-- A place is taken for each client, no more than there are, and the counter is right.
pub record IsGuarded (max_clients : ℕ) (s : Listening) : Type 0 where
  pub one_each : s.sem ≡ length s.clients
  pub within : s.sem ≤ max_clients
  pub counted : s.stats.active_connections ≡ serving_clients s.clients

serving-append :
    (cs ds : List Client) → serving_clients (cs ++ ds) ≡ serving_clients cs + serving_clients ds
unfolding serving_clients
serving-append [] ds = omega arith
serving-append (spawned ∷ cs) ds = serving-append cs ds
serving-append (received ∷ cs) ds = serving-append cs ds
serving-append (serving ∷ cs) ds = omega (arith, serving-append cs ds)
serving-append (leaving ∷ cs) ds = serving-append cs ds

serving_clients-le : (cs : List Client) → serving_clients cs ≤ length cs
unfolding serving_clients
serving_clients-le [] = omega arith
serving_clients-le (spawned ∷ cs) = omega (arith, serving_clients-le cs)
serving_clients-le (received ∷ cs) = omega (arith, serving_clients-le cs)
serving_clients-le (serving ∷ cs) = omega (arith, serving_clients-le cs)
serving_clients-le (leaving ∷ cs) = omega (arith, serving_clients-le cs)

-- What the invariant says where one of the clients is picked out.
lengths :
    {m : ℕ} (s : Listening) (bs cs : List Client)
    → s.clients ≡ bs ++ cs
    → IsGuarded m s
    → s.sem ≡ length bs + length cs
lengths s bs cs e g = g.one_each ∙ ap length e ∙ length-append bs cs

served :
    {m : ℕ} (s : Listening) (bs cs : List Client)
    → s.clients ≡ bs ++ cs
    → IsGuarded m s
    → s.stats.active_connections ≡ serving_clients bs + serving_clients cs
served s bs cs e g = g.counted ∙ ap serving_clients e ∙ serving-append bs cs

module _ (max_clients : ℕ) (small : max_clients < 2 ^ 64) where
  LoopStep-IsGuarded :
      (s s' : Listening)
      → LoopStep max_clients s s'
      → IsGuarded max_clients s
      → IsGuarded max_clients s'
  unfolding admit serving_clients
  LoopStep-IsGuarded _ _ (accepts s e c) g = record {
    one_each = g.one_each;
    within = g.within;
    counted = g.counted;
  }
  LoopStep-IsGuarded _ _ (retries s e c) g = g
  LoopStep-IsGuarded _ _ (stops s e c) g = record {
    one_each = g.one_each;
    within = g.within;
    counted = g.counted;
  }
  LoopStep-IsGuarded _ _ (admits s e h) g = record {
    one_each = omega arith;
    within = omega arith;
    counted = g.counted;
  }
  LoopStep-IsGuarded _ _ (drops s e c) g = record {
    one_each = g.one_each;
    within = g.within;
    counted = g.counted;
  }
  LoopStep-IsGuarded _ _ (refuses s e c h) g = record {
    one_each = g.one_each;
    within = g.within;
    counted = g.counted;
  }

  OtherStep-IsGuarded :
      (s s' : Listening) → OtherStep s s' → IsGuarded max_clients s → IsGuarded max_clients s'
  unfolding receive count uncount increment decrement serving_clients
  OtherStep-IsGuarded _ _ (cancels s c) g = record {
    one_each = g.one_each;
    within = g.within;
    counted = g.counted;
  }
  OtherStep-IsGuarded _ _ (closes_listener s c) g = record {
    one_each = g.one_each;
    within = g.within;
    counted = g.counted;
  }
  OtherStep-IsGuarded _ _ (receives s bs cs e) g = record {
    one_each = omega (arith, lengths s bs (spawned ∷ cs) e g, length-append bs (received ∷ cs));
    within = g.within;
    counted = omega (arith, served s bs (spawned ∷ cs) e g, serving-append bs (received ∷ cs));
  }
  OtherStep-IsGuarded _ _ (counts s bs cs e) g = record {
    one_each = omega (arith, lengths s bs (received ∷ cs) e g, length-append bs (serving ∷ cs));
    within = g.within;
    counted = omega (
      arith,
      g.one_each,
      g.within,
      lengths s bs (received ∷ cs) e g,
      served s bs (received ∷ cs) e g,
      serving-append bs (serving ∷ cs),
      serving_clients-le bs,
      serving_clients-le cs,
    );
  }
  OtherStep-IsGuarded _ _ (leaves s bs cs e) g = record {
    one_each = omega (arith, lengths s bs (serving ∷ cs) e g, length-append bs (leaving ∷ cs));
    within = g.within;
    counted = omega (
      arith,
      g.one_each,
      g.within,
      lengths s bs (serving ∷ cs) e g,
      served s bs (serving ∷ cs) e g,
      serving-append bs (leaving ∷ cs),
      serving_clients-le bs,
      serving_clients-le cs,
    );
  }
  OtherStep-IsGuarded _ _ (releases s bs cs e) g = record {
    one_each = omega (arith, lengths s bs (leaving ∷ cs) e g, length-append bs cs);
    within = omega (arith, g.within);
    counted = omega (arith, served s bs (leaving ∷ cs) e g, serving-append bs cs);
  }

  Run-IsGuarded :
      (s s' : Listening) (n : ℕ)
      → Run max_clients s n s'
      → IsGuarded max_clients s
      → IsGuarded max_clients s'
  Run-IsGuarded _ _ _ (done s) g = g
  Run-IsGuarded _ _ _ (loops s s' s'' n x r) g =
      Run-IsGuarded s' s'' n r (LoopStep-IsGuarded s s' x g)
  Run-IsGuarded _ _ _ (others s s' s'' n x r) g =
      Run-IsGuarded s' s'' n r (OtherStep-IsGuarded s s' x g)

  -- In every state that Serve reaches, with fewer than 2^64 clients allowed, the semaphore holds a
  -- token for each goroutine of a client, there are no more of them than are allowed, and
  -- ActiveConnections is the number of those in their sessions.
  pub listening-IsGuarded :
      (s : Listening) (n : ℕ) → Run max_clients listening n s → IsGuarded max_clients s
  listening-IsGuarded s n r =
      Run-IsGuarded listening s n r
        (record { one_each = refl; within = omega arith; counted = unfold serving_clients in refl })
