-- ===== src/Server/Accept/Shutdown.antt =====
-- How the accept loop ends after a signal.
use warpdb.Base.{ℕ, suc, ◌+◌, ◌≤◌, ◌≡◌, refl, true, arith, sym, ◌∙◌, false≢true, ◌⊎◌, inl, inr, ap}
use warpdb.Server.Accept.{
  Loop, accepting, deciding, stopped, Listening, admit, LoopStep, accepts, retries, stops, admits,
  drops, refuses, OtherStep, cancels, closes_listener, receives, counts, leaves, releases, Run,
  done, loops, others,
}

-- The shutdown goroutine has done its work.
pub record IsClosing (s : Listening) : Type 0 where
  pub signalled : s.cancelled ≡ true
  pub closed : s.ln_closed ≡ true

-- The steps that the loop has left, at most.
abbrev rank : Loop → ℕ
rank stopped = 0
rank accepting = 1
rank deciding = 2

LoopStep-IsClosing :
    {m : ℕ} (s s' : Listening)
    → LoopStep m s s'
    → IsClosing s
    → IsClosing s' × (suc (rank s'.loop) ≤ rank s.loop)
unfolding admit
LoopStep-IsClosing _ _ (accepts s e o) c = absurd (false≢true (sym o ∙ c.closed))
LoopStep-IsClosing _ _ (retries s e o) c = absurd (false≢true (sym o ∙ c.signalled))
LoopStep-IsClosing _ _ (stops s e o) c =
    (record { signalled = c.signalled; closed = c.closed }, omega (arith, ap rank e))
LoopStep-IsClosing _ _ (admits s e h) c =
    (record { signalled = c.signalled; closed = c.closed }, omega (arith, ap rank e))
LoopStep-IsClosing _ _ (drops s e o) c =
    (record { signalled = c.signalled; closed = c.closed }, omega (arith, ap rank e))
LoopStep-IsClosing _ _ (refuses s e o h) c = absurd (false≢true (sym o ∙ c.signalled))

OtherStep-IsClosing :
    (s s' : Listening) → OtherStep s s' → IsClosing s → IsClosing s' × (s'.loop ≡ s.loop)
OtherStep-IsClosing _ _ (cancels s o) c = absurd (false≢true (sym o ∙ c.signalled))
OtherStep-IsClosing _ _ (closes_listener s o) c =
    (record { signalled = c.signalled; closed = refl }, refl)
OtherStep-IsClosing _ _ (receives s bs cs e) c =
    (record { signalled = c.signalled; closed = c.closed }, refl)
OtherStep-IsClosing _ _ (counts s bs cs e) c =
    (record { signalled = c.signalled; closed = c.closed }, refl)
OtherStep-IsClosing _ _ (leaves s bs cs e) c =
    (record { signalled = c.signalled; closed = c.closed }, refl)
OtherStep-IsClosing _ _ (releases s bs cs e) c =
    (record { signalled = c.signalled; closed = c.closed }, refl)

Run-IsClosing :
    {m : ℕ} (s s' : Listening) (n : ℕ)
    → Run m s n s'
    → IsClosing s
    → IsClosing s' × (n + rank s'.loop ≤ rank s.loop)
Run-IsClosing _ _ _ (done s) c = (c, omega arith)
Run-IsClosing _ _ _ (loops s s' s'' n x r) c =
    let (c', h) = LoopStep-IsClosing s s' x c in
    let (c'', k) = Run-IsClosing s' s'' n r c' in (c'', omega arith)
Run-IsClosing _ _ _ (others s s' s'' n x r) c =
    let (c', h) = OtherStep-IsClosing s s' x c in
    let (c'', k) = Run-IsClosing s' s'' n r c' in (c'', omega (arith, ap rank h))

-- A loop that has not returned can take a step, whatever the clients do.
can_go_on :
    {m : ℕ} (s : Listening)
    → IsClosing s
    → (s.loop ≡ stopped) ⊎ ((s' : Listening) × LoopStep m s s')
can_go_on {m} s c = at s.loop refl
  where
    at : (l : Loop) → s.loop ≡ l → (s.loop ≡ stopped) ⊎ ((s' : Listening) × LoopStep m s s')
    at accepting e = inr (_, stops s e c.signalled)
    at deciding e = inr (_, drops s e c.signalled)
    at stopped e = inl e

rank-le : (l : Loop) → rank l ≤ 2
rank-le accepting = omega arith
rank-le deciding = omega arith
rank-le stopped = omega arith

-- After a signal.
pub record Ends (max_clients n : ℕ) (s : Listening) : Type 0 where
  pub few_steps : n ≤ 2
  pub goes_on : (s.loop ≡ stopped) ⊎ ((s' : Listening) × LoopStep max_clients s s')

-- Once a signal has cancelled the context and closed the listener, the accept loop makes two steps
-- at most, whatever the clients do meanwhile, and until it has returned it can make one.
pub Run-Ends :
    (max_clients : ℕ) (s s' : Listening) (n : ℕ)
    → IsClosing s
    → Run max_clients s n s'
    → Ends max_clients n s'
Run-Ends max_clients s s' n c r =
    let (c', h) = Run-IsClosing s s' n r c in
    record { few_steps = omega (arith, rank-le s.loop); goes_on = can_go_on s' c' }
