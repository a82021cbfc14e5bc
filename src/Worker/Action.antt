-- ===== src/Worker/Action.antt =====
-- Code that reads and changes the world, one step after another.
use log_morph.Common.{ℕ, suc}
use log_morph.Context.{Context}
use log_morph.Worker.{World}

abbrev pub Action : (B I R A : Type 0) → Type 0
Action B I R A = World B I R → A × World B I R

module _ {B I R : Type 0} where
  abbrev pub pure : {A : Type 0} → A → Action B I R A
  pure a w = (a, w)

  infixl 5 ◌>>=◌ ◌>>◌
  abbrev pub ◌>>=◌ : {A C : Type 0} → Action B I R A → (A → Action B I R C) → Action B I R C
  ◌>>=◌ m f w = let (a, w') = m w in f a w'

  abbrev pub ◌>>◌ : {A C : Type 0} → Action B I R A → Action B I R C → Action B I R C
  ◌>>◌ m n w = n (m w).1

  -- a call of each store
  abbrev pub on_buffer : {A : Type 0} → (B → A × B) → Action B I R A
  on_buffer op w = let (a, b) = op w.buffer in (a, record w { buffer = b })

  abbrev pub on_idem : {A : Type 0} → (I → A × I) → Action B I R A
  on_idem op w = let (a, i) = op w.idem in (a, record w { idem = i })

  abbrev pub on_raws : {A : Type 0} → (R → A × R) → Action B I R A
  on_raws op w = let (a, r) = op w.raws in (a, record w { raws = r })

  abbrev pub on_ctx : {A : Type 0} → (Context → A × Context) → Action B I R A
  on_ctx op w = let (a, c) = op w.ctx in (a, record w { ctx = c })

  -- the number of this call of a component, for its readings and uuid
  abbrev pub next_call : Action B I R ℕ
  next_call w = (w.calls, record w { calls = suc w.calls })
