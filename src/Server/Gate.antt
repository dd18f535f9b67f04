-- ===== src/Server/Gate.antt =====
-- What a client can do before it has given the password.
use warpdb.Base.{
  ◌⊎◌, false≢true, ℕ, ◌+◌, ◌≡◌, refl, ap, ◌∙◌, sym, true, false, ◌||◌, List, [], ◌∷◌, Bytes, codes,
  beq, beq_iff, All, arith, Bool-cases, inl, inr,
}
use mathlib.Core.Path.{subst}
use warpdb.Engine.{StorageEngine}
use warpdb.Config.{Config}
use warpdb.Commands.{Handler, Env, to_upper}
use warpdb.Commands.Admin.{ping_command, command_command}
use warpdb.Commands.Handle.{handle, dispatch}
use warpdb.Server.{
  Session, is_unauthenticated_command, is_auth, has_password, serve_request, serve_all,
}

-- The request is AUTH, in whatever case, with the password alone.
abbrev pub GivesPassword : Bytes → List Bytes → Type 0
GivesPassword password (name ∷ given ∷ []) = (to_upper name ≡ codes "AUTH") × (given ≡ password)
GivesPassword password _ = ⊥

pub GivesPassword-tests :
    (password : Bytes) (args : List Bytes)
    → is_auth args ≡ true
    → has_password password args ≡ true
    → GivesPassword password args
unfolding is_auth has_password
GivesPassword-tests password [] h k = absurd (false≢true h)
GivesPassword-tests password (name ∷ []) h k = absurd (false≢true k)
GivesPassword-tests password (name ∷ given ∷ []) h k =
    ((beq_iff (to_upper name) (codes "AUTH")).0 h, (beq_iff given password).0 k)
GivesPassword-tests password (name ∷ given ∷ x ∷ more) h k = absurd (false≢true k)

module _ {S : Type 0} (engine : StorageEngine S) where
  ping-keeps : (rest : List Bytes) (h : Handler S) → (ping_command rest h).0 ≡ h
  unfolding ping_command
  ping-keeps [] h = refl
  ping-keeps (msg ∷ rest) h = refl

  -- The commands that need no password change nothing in the handler.
  dispatch-keeps :
      (env : Env) (cmd name : Bytes) (rest : List Bytes) (h : Handler S)
      → (cmd ≡ codes "PING") ⊎ ((cmd ≡ codes "QUIT") ⊎ (cmd ≡ codes "COMMAND"))
      → (dispatch engine env cmd name rest h).0 ≡ h
  unfolding dispatch beq command_command
  dispatch-keeps env cmd name rest h (inl e) = rw e (ping-keeps rest h)
  dispatch-keeps env cmd name rest h (inr (inl e)) = rw e refl
  dispatch-keeps env cmd name rest h (inr (inr e)) = rw e refl

  -- A session that a request has left locked, with the store and the configuration as they were.
  pub record Untouched (s s' : Session S) : Type 0 where
    pub same_store : s'.handler.store ≡ s.handler.store
    pub same_cfg : s'.handler.cfg ≡ s.handler.cfg
    pub still_locked : s'.authenticated ≡ false

  free_command :
      (cmd : Bytes)
      → (beq cmd (codes "PING") || (beq cmd (codes "QUIT") || beq cmd (codes "COMMAND"))) ≡ true
      → (cmd ≡ codes "PING") ⊎ ((cmd ≡ codes "QUIT") ⊎ (cmd ≡ codes "COMMAND"))
  free_command cmd h =
      ground (
        arith,
        beq_iff cmd (codes "PING"),
        beq_iff cmd (codes "QUIT"),
        beq_iff cmd (codes "COMMAND"),
      )

  handle-free :
      (env : Env) (args : List Bytes) (h : Handler S)
      → is_unauthenticated_command args ≡ true
      → (handle engine env args h).0 ≡ record h { total_commands = h.total_commands + 1 }
  unfolding handle is_unauthenticated_command
  handle-free env [] h e = absurd (false≢true e)
  handle-free env (name ∷ rest) h e =
      dispatch-keeps env (to_upper name) name rest _ (free_command (to_upper name) e)

  pub serve_request-Untouched :
      (env : Env) (args : List Bytes) (s : Session S)
      → s.authenticated ≡ false
      → (GivesPassword s.handler.cfg.require_pass args → ⊥)
      → Untouched s (serve_request engine env args s).0
  unfolding serve_request
  serve_request-Untouched env args s locked h = rw locked (elim (Bool-cases (is_auth args)) [
    | inl auth ↦ rw auth (elim (Bool-cases (has_password s.handler.cfg.require_pass args)) [
      | inl right ↦ absurd (h (GivesPassword-tests s.handler.cfg.require_pass args auth right))
      | inr wrong ↦ rw wrong (record { same_store = refl; same_cfg = refl; still_locked = refl })
    ])
    | inr other ↦ rw other (elim (Bool-cases (is_unauthenticated_command args)) [
      | inl free ↦ rw free (record {
        same_store = ap (λ (x : Handler S). x.store) (handle-free env args s.handler free);
        same_cfg = ap (λ (x : Handler S). x.cfg) (handle-free env args s.handler free);
        still_locked = refl;
      })
      | inr refused ↦
          rw refused (record { same_store = refl; same_cfg = refl; still_locked = refl })
    ])
  ])

  Untouched-trans : (s s' s'' : Session S) → Untouched s s' → Untouched s' s'' → Untouched s s''
  Untouched-trans s s' s'' first rest = record {
    same_store = rest.same_store ∙ first.same_store;
    same_cfg = rest.same_cfg ∙ first.same_cfg;
    still_locked = rest.still_locked;
  }

  -- As long as no request is AUTH with the password, a session that is not authenticated leaves the
  -- store and the configuration as they were, whatever its requests are, and stays locked.
  pub serve_all-Untouched :
      (envs : ℕ → Env) (n : ℕ) (out : Bytes) (requests : List (List Bytes)) (s : Session S)
      → s.authenticated ≡ false
      → All (λ args. GivesPassword s.handler.cfg.require_pass args → ⊥) requests
      → Untouched s (serve_all engine envs n out requests s).0
  unfolding serve_all
  serve_all-Untouched envs n out [] s locked h = record {
    same_store = refl;
    same_cfg = refl;
    still_locked = locked;
  }
  serve_all-Untouched envs n out (args ∷ requests) s locked h =
      let first = serve_request-Untouched (envs n) args s locked h.0 in
      Untouched-trans s _ _ first (
        serve_all-Untouched envs (n + 1) _ requests _ first.still_locked (
          subst (λ (c : Config). All (λ a. GivesPassword c.require_pass a → ⊥) requests)
            (sym first.same_cfg) h.1))
