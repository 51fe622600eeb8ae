-- ===== src/Plugin/Contract.antt =====
-- gateway/internal/plugin/plugin.go. An http.Handler is a function of the request and of what it
-- writes to: the response writer and a state `S`, in which the plugins keep what they share between
-- requests. A plugin that blocks a request does not call the handler that it is given.
pub mod Chaining
use dealer.Base.{ℕ, zero, suc, Option, none, some, List, [], ◌∷◌, String, get_elem?, length}
use dealer.Http.Request.{Request}
use dealer.Http.Writer.{Writer}

pub record Env (S : Type 0) : Type 0 where
  pub writer : Writer
  pub state : S

abbrev pub Handler : Type 0 → Type 0
Handler S = Request → Env S → Env S

abbrev pub on_writer : {S : Type 0} → (Writer → Writer) → Env S → Env S
on_writer f e = record e { writer = f e.writer }

pub record Plugin (S : Type 0) : Type 0 where
  pub name : String
  pub wrap : Handler S → Handler S

-- plugins[i].Wrap(h); the loop stays in range.
abbrev pub wrap_at : {S : Type 0} → Option (Plugin S) → Handler S → Handler S
wrap_at none h = h
wrap_at (some p) h = p.wrap h

-- The loop of Chain, from the last plugin to the first.
unfoldable pub chain_from : {S : Type 0} → List (Plugin S) → ℕ → Handler S → Handler S
chain_from plugins zero h = h
chain_from plugins (suc i) h = chain_from plugins i (wrap_at (get_elem? plugins i) h)

unfoldable pub chain : {S : Type 0} → List (Plugin S) → Handler S → Handler S
unfolding chain_from
chain plugins final = chain_from plugins (length plugins) final
