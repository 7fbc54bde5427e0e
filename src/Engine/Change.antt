-- ===== src/Engine/Change.antt =====
-- How a handler, as a chain of steps, may change the engine: rules over any reflexive and
-- transitive relation between engines, whether the chain ends well or in an error.
use rabia.Base.{ℕ, suc, List, ◌∷◌, Bool, true, false, if◌then◌else◌}
use rabia.Core.Error.{Result, ok, err}
use rabia.Core.Types.{NodeId, Bytes}
use rabia.Core.Message.{ProtocolMessage}
use rabia.Engine.State.{EngineState}
use rabia.Engine.Runtime.{
  Env, Reply, RabiaEngine, M, pure, lift, gets, ◌>>=◌, ◌>>◌, ignore_error, reply, now_millis,
  new_uuid, gen_bool, store_bytes, stamp, my_id,
}

-- A relation between an engine and a later state of it. Questions to the surroundings, what is
-- saved and what is answered are no concern of it.
pub record Change (S : Type 0) : Type 1 where
  pub Rel : RabiaEngine S → RabiaEngine S → Type 0
  pub same : (e : RabiaEngine S) → Rel e e
  pub join : (e f g : RabiaEngine S) → Rel e f → Rel f g → Rel e g
  pub asks : (e : RabiaEngine S) (k : ℕ) → Rel e (record e { asked = k })
  pub saves :
      (e : RabiaEngine S) (k : ℕ) (b : List Bytes) → Rel e (record e { asked = k; saved = b })
  pub answers : (e : RabiaEngine S) (rs : List Reply) → Rel e (record e { replies = rs })

-- Every run of the handler changes the engine so.
pub record Steps {S A : Type 0} ⦃c : Change S⦄ (m : M S A) : Type 0 where
  pub apply : (e : RabiaEngine S) → c.Rel e (m e).1

module _ {S : Type 0} ⦃c : Change S⦄ where
  bind_result :
      {A B : Type 0} (f : A → M S B) (e : RabiaEngine S) (x : Result A × RabiaEngine S)
      → ((a : A) → Steps (f a))
      → c.Rel e x.1
      → c.Rel e (◌>>=◌ (λ (_ : RabiaEngine S). x) f x.1).1
  unfolding ◌>>=◌
  bind_result f e (ok a, e') k g = c.join e e' (f a e').1 g ((k a).apply e')
  bind_result f e (err x, e') k g = g

  pub bind-Steps :
      {A B : Type 0} (m : M S A) (f : A → M S B)
      → Steps m
      → ((a : A) → Steps (f a))
      → Steps (m >>= f)
  unfolding ◌>>=◌
  bind-Steps m f h k = record { apply = λ e. bind_result f e (m e) k (h.apply e) }

  pub then-Steps : {A B : Type 0} (m : M S A) (k : M S B) → Steps m → Steps k → Steps (m >> k)
  unfolding ◌>>◌
  then-Steps m k h l = bind-Steps m (λ _. k) h (λ _. l)

  pub ignore_error-Steps : (m : M S (Unit {0})) → Steps m → Steps (ignore_error m)
  unfolding ignore_error
  ignore_error-Steps m h = record { apply = h.apply }

  pub if-Steps :
      {A : Type 0} (b : Bool) (m k : M S A) → Steps m → Steps k → Steps (if b then m else k)
  if-Steps true m k h l = h
  if-Steps false m k h l = l

  pub pure-Steps : {A : Type 0} (a : A) → Steps (pure {S = S} a)
  unfolding pure
  pure-Steps a = record { apply = c.same }

  pub lift-Steps : {A : Type 0} (r : Result A) → Steps (lift {S = S} r)
  unfolding lift
  lift-Steps r = record { apply = c.same }

  pub gets-Steps : {A : Type 0} (f : EngineState → A) → Steps (gets {S = S} f)
  unfolding gets
  gets-Steps f = record { apply = c.same }

  pub my_id-Steps : Steps (my_id {S = S})
  unfolding my_id
  my_id-Steps = record { apply = c.same }

  pub reply-Steps : (r : Reply) → Steps (reply {S = S} r)
  unfolding reply
  reply-Steps r = record { apply = λ e. c.answers e (r ∷ e.replies) }

  pub now_millis-Steps : (env : Env) → Steps (now_millis {S = S} env)
  unfolding now_millis
  now_millis-Steps env = record { apply = λ e. c.asks e (suc e.asked) }

  pub new_uuid-Steps : (env : Env) → Steps (new_uuid {S = S} env)
  unfolding new_uuid
  new_uuid-Steps env = record { apply = λ e. c.asks e (suc e.asked) }

  pub gen_bool-Steps : (env : Env) (n : ℕ) → Steps (gen_bool {S = S} env n)
  unfolding gen_bool
  gen_bool-Steps env n = record { apply = λ e. c.asks e (suc e.asked) }

  pub store_bytes-Steps : (env : Env) (b : Bytes) → Steps (store_bytes {S = S} env b)
  unfolding store_bytes
  store_bytes-Steps env b = record { apply = λ e. c.saves e (suc e.asked) (b ∷ e.saved) }

  pub stamp-Steps :
      (env : Env) (make : ℕ → ℕ → NodeId → ProtocolMessage) → Steps (stamp {S = S} env make)
  unfolding stamp
  stamp-Steps env make = record { apply = λ e. c.asks e (suc (suc e.asked)) }

  -- A message is known to be of the form that it is made in.
  pub bind_stamp-Steps :
      {A : Type 0} (env : Env) (make : ℕ → ℕ → NodeId → ProtocolMessage)
      (f : ProtocolMessage → M S A)
      → ((id now : ℕ) (me : NodeId) → Steps (f (make id now me)))
      → Steps (stamp env make >>= f)
  unfolding ◌>>=◌
  bind_stamp-Steps env make f k = record {
    apply = λ e.
        let e' = record e { asked = suc (suc e.asked) } in
        let id = env.uuid e.asked in
        let now = env.now_millis (suc e.asked) in
        c.join e e' (f (make id now e.node_id) e').1 (c.asks e (suc (suc e.asked)))
          ((k id now e.node_id).apply e');
  }
