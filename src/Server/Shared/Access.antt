-- ===== src/Server/Shared/Access.antt =====
-- Which clients can change what all share.
use warpdb.Base.{
  ℕ, ◌≡◌, refl, sym, ap, ◌∙◌, ◌⊎◌, inl, inr, Bool, true, false, false≢true, List, [], ◌∷◌, Bytes,
  beq, beq_iff, ◌==◌, ==_iff, if◌then◌else◌, Bool-cases,
}
use warpdb.Engine.{StorageEngine}
use warpdb.Commands.{Env}
use warpdb.Server.{Session, serve_request, is_auth, has_password, is_unauthenticated_command}
use warpdb.Server.Gate.{GivesPassword, GivesPassword-tests, serve_request-Untouched}
use warpdb.Server.Shared.{
  Shared, Event, connects, requests, set_flag, session_of, serve_client, happen, happen_all,
}

-- An event lets the client `i` in: it connects while no password is asked for, or it gives the one
-- that is.
abbrev pub Earns : {S : Type 0} → ℕ → Shared S → Event → Type 0
Earns i s (connects j) = (i ≡ j) × (s.handler.cfg.require_pass ≡ [])
Earns i s (requests j env args) = (i ≡ j) × GivesPassword s.handler.cfg.require_pass args

module _ {S : Type 0} (engine : StorageEngine S) where
  -- One of these events let it in.
  abbrev pub Earned : ℕ → Shared S → List Event → Type 0
  Earned i s [] = ⊥
  Earned i s (e ∷ events) = Earns i s e ⊎ Earned i (happen engine s e) events

  -- Only AUTH with the password opens a session.
  opened_by :
      (env : Env) (args : List Bytes) (s : Session S)
      → (serve_request engine env args s).0.authenticated ≡ true
      → (s.authenticated ≡ true) ⊎ GivesPassword s.handler.cfg.require_pass args
  unfolding serve_request
  opened_by env args s h = elim (Bool-cases s.authenticated) [
    | inl before ↦ inl before
    | inr locked ↦ elim (Bool-cases (is_auth args)) [
      | inl auth ↦ elim (Bool-cases (has_password s.handler.cfg.require_pass args)) [
        | inl right ↦ inr (GivesPassword-tests s.handler.cfg.require_pass args auth right)
        | inr wrong ↦ shut (rw (locked, auth, wrong) refl)
      ]
      | inr other ↦ elim (Bool-cases (is_unauthenticated_command args)) [
        | inl free ↦ shut (rw (locked, other, free) refl)
        | inr refused ↦ shut (rw (locked, other, refused) refl)
      ]
    ]
  ]
    where
      shut :
          (serve_request engine env args s).0.authenticated ≡ false
          → (s.authenticated ≡ true) ⊎ GivesPassword s.handler.cfg.require_pass args
      shut e = absurd (false≢true (sym e ∙ h))

  happen-opens :
      (i : ℕ) (s : Shared S) (e : Event)
      → (happen engine s e).authenticated i ≡ true
      → (s.authenticated i ≡ true) ⊎ Earns i s e
  unfolding happen set_flag serve_client
  happen-opens i s (connects j) h = at (i == j) refl h
    where
      at :
          (b : Bool)
          → i == j ≡ b
          → (if b then beq s.handler.cfg.require_pass [] else s.authenticated i) ≡ true
          → (s.authenticated i ≡ true) ⊎ ((i ≡ j) × (s.handler.cfg.require_pass ≡ []))
      at true same e = inr ((==_iff i j).0 same, (beq_iff s.handler.cfg.require_pass []).0 e)
      at false apart e = inl e
  happen-opens i s (requests j env args) h = at (i == j) refl h
    where
      given :
          i ≡ j
          → (s.authenticated j ≡ true) ⊎ GivesPassword s.handler.cfg.require_pass args
          → (s.authenticated i ≡ true) ⊎ ((i ≡ j) × GivesPassword s.handler.cfg.require_pass args)
      given same (inl before) = inl (ap s.authenticated same ∙ before)
      given same (inr gives) = inr (same, gives)

      at :
          (b : Bool)
          → i == j ≡ b
          → (if b
              then (serve_request engine env args (session_of engine j s)).0.authenticated
              else s.authenticated i)
            ≡ true
          → (s.authenticated i ≡ true) ⊎ ((i ≡ j) × GivesPassword s.handler.cfg.require_pass args)
      at true same e = given ((==_iff i j).0 same) (opened_by env args (session_of engine j s) e)
      at false apart e = inl e

  all-opens :
      (i : ℕ) (s : Shared S) (events : List Event)
      → (happen_all engine events s).authenticated i ≡ true
      → (s.authenticated i ≡ true) ⊎ Earned i s events
  all-opens i s [] h = inl h
  all-opens i s (e ∷ events) h = from (all-opens i (happen engine s e) events h)
    where
      from :
          ((happen engine s e).authenticated i ≡ true) ⊎ Earned i (happen engine s e) events
          → (s.authenticated i ≡ true) ⊎ (Earns i s e ⊎ Earned i (happen engine s e) events)
      from (inr later) = inr (inr later)
      from (inl now) = earlier (happen-opens i s e now)
        where
          earlier :
              (s.authenticated i ≡ true) ⊎ Earns i s e
              → (s.authenticated i ≡ true) ⊎ (Earns i s e ⊎ Earned i (happen engine s e) events)
          earlier (inl before) = inl before
          earlier (inr earns) = inr (inl earns)

  -- What a request leaves as it was.
  pub record IsHarmless (s : Shared S) (s' : Shared S) : Type 0 where
    pub same_store : s'.handler.store ≡ s.handler.store
    pub same_cfg : s'.handler.cfg ≡ s.handler.cfg
    pub same_flags : (j : ℕ) → s'.authenticated j ≡ s.authenticated j

  locked_client :
      (i : ℕ) (env : Env) (args : List Bytes) (s : Shared S)
      → s.authenticated i ≡ false
      → (GivesPassword s.handler.cfg.require_pass args → ⊥)
      → IsHarmless s (serve_client engine i env args s).0
  unfolding serve_client set_flag
  locked_client i env args s locked h =
      let u = serve_request-Untouched engine env args (session_of engine i s) locked h in
      record {
        same_store = u.same_store;
        same_cfg = u.same_cfg;
        same_flags = λ j. flag j (j == i) refl u.still_locked;
      }
    where
      flag :
          (j : ℕ) (b : Bool)
          → j == i ≡ b
          → (serve_request engine env args (session_of engine i s)).0.authenticated ≡ false
          → (if b
              then (serve_request engine env args (session_of engine i s)).0.authenticated
              else s.authenticated j)
            ≡ s.authenticated j
      flag j true same e = e ∙ sym locked ∙ ap s.authenticated (sym ((==_iff j i).0 same))
      flag j false apart e = refl

  -- Where several clients are served, in whatever order, from a state in which no client is let in,
  -- a request of a client that has neither connected while no password was asked for nor given the
  -- one that was asked for, and that is not AUTH with the present password, leaves the store, the
  -- configuration and what every client is let in for as they were.
  pub stranger-IsHarmless :
      (s : Shared S) (events : List Event) (i : ℕ) (env : Env) (args : List Bytes)
      → ((j : ℕ) → s.authenticated j ≡ false)
      → (Earned i s events → ⊥)
      → (GivesPassword (happen_all engine events s).handler.cfg.require_pass args → ⊥)
      → IsHarmless
          (happen_all engine events s)
          (serve_client engine i env args (happen_all engine events s)).0
  stranger-IsHarmless s events i env args start none_earned h =
      locked_client i env args (happen_all engine events s)
        (still (Bool-cases ((happen_all engine events s).authenticated i))) h
    where
      earned : (s.authenticated i ≡ true) ⊎ Earned i s events → ⊥
      earned (inl e) = false≢true (sym (start i) ∙ e)
      earned (inr e) = none_earned e

      still :
          ((happen_all engine events s).authenticated i ≡ true)
            ⊎ ((happen_all engine events s).authenticated i ≡ false)
          → (happen_all engine events s).authenticated i ≡ false
      still (inl e) = absurd (earned (all-opens i s events e))
      still (inr e) = e
